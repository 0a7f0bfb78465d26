-- ===== src/Examples/Reading.antt =====
-- A search of the frames and of the calls of two calls, of which the second has no frame, and the JSON
-- text of a log's ID.
use goapptrace.Base.{
  ℕ, ◌*◌, ◌≡◌, ◌≢◌, ◌↔◌, refl, ap, arith, true, List, [], ◌∷◌, ◌++◌, map, Option, Option-cases, inl,
  inr, none, some, ok, panic, length, get_elem?,
}
use goapptrace.Base.Int.{ℤ, pos, negsuc}
use goapptrace.Types.{FuncLog}
use goapptrace.Types.LogId.{Hex, unmarshal_json}
use goapptrace.Types.LogId.Json.{IsHex, Reads, unmarshal_json_iff}
use goapptrace.Restapi.Reads.{start, read_call, read_frame, read_all}
use goapptrace.Restapi.Reads.Frames.{Stores, read_all-rows}

abbrev log_of : List ℕ → FuncLog
log_of frames = record {
  id = pos 0;
  start_time = pos 10;
  end_time = pos 25;
  parent_id = negsuc 0;
  frames = frames;
  gid = pos 1;
}

abbrev logs : List FuncLog
logs = log_of (210 ∷ 950 ∷ []) ∷ log_of [] ∷ []

abbrev get_nolock : ℤ → Option FuncLog
get_nolock (pos i) = get_elem? logs i
get_nolock (negsuc i) = none

logs-Stores : Stores 2 get_nolock 0 logs
logs-Stores = (omega arith, omega arith, λ j. ap (get_elem? logs) (omega arith))

read_all-rows_example :
    (read_all (read_frame 2 get_nolock) 4 (start (log_of []))
      ≡ some (
        (log_of (210 ∷ 950 ∷ []), pos 0)
            ∷ (log_of (210 ∷ 950 ∷ []), pos 1)
            ∷ (log_of [], pos 0)
            ∷ [],
        true,
      ))
    × (read_all (read_call 2 get_nolock) 3 (start (log_of []))
        ≡ some (map (λ l. (l, pos 0)) logs, true))
read_all-rows_example =
    read_all-rows get_nolock logs (log_of []) logs-Stores (omega arith, (omega arith, tt))

-- Two digits for a byte: the byte itself, and 0.
abbrev encode : List ℕ → List ℕ
encode [] = []
encode (x ∷ xs) = x ∷ 0 ∷ encode xs

abbrev with_byte : ℕ → Option (List ℕ) → Option (List ℕ)
with_byte x none = none
with_byte x (some xs) = some (x ∷ xs)

abbrev decode : List ℕ → Option (List ℕ)
decode [] = some []
decode (x ∷ []) = none
decode (x ∷ y ∷ s) = with_byte x (decode s)

abbrev pub lib : Hex
lib = record { encode_to_string = encode; decode_string = decode }

decode-encode : (b : List ℕ) → decode (encode b) ≡ some b
decode-encode [] = refl
decode-encode (x ∷ xs) = ap (with_byte x) (decode-encode xs)

some-injective : {a b : List ℕ} → some a ≡ some b → a ≡ b
some-injective h = cc

length-decode : (s b : List ℕ) → decode s ≡ some b → length s ≡ length b * 2
length-decode [] b h = rw (← some-injective h) refl
length-decode (x ∷ []) b h = cc
length-decode (x ∷ y ∷ s) b h = elim (Option-cases (decode s)) [
  | inl e ↦ (let no : none ≡ some b = rw e at h in cc)
  | inr (xs, e) ↦
      let same : x ∷ xs ≡ b = some-injective (rw e at h) in
      rw (← same) (omega (arith, length-decode s xs e))
]

lib-IsHex : IsHex lib
lib-IsHex = record { decode-encode = decode-encode; length-decode = length-decode }

abbrev id : List ℕ
id = 1 ∷ 2 ∷ 3 ∷ 4 ∷ 5 ∷ 6 ∷ 7 ∷ 8 ∷ 9 ∷ 10 ∷ 11 ∷ 12 ∷ 13 ∷ 14 ∷ 15 ∷ 16 ∷ []

abbrev text : List ℕ
text = (b'"' ∷ []) ++ encode id ++ (b'"' ∷ [])

unmarshal_json_iff_example :
    (unmarshal_json lib text ≢ panic)
    × ((unmarshal_json lib text ≡ ok (some id)) ↔ Reads lib lib-IsHex text id)
unmarshal_json_iff_example = unmarshal_json_iff lib lib-IsHex text id
