-- ===== src/Types/LogId.antt =====
-- tracer/types/types.go: LogID, and its text in hexadecimal digits and in JSON. encoding/hex is a
-- parameter.
pub mod Json
use goapptrace.Base.{
  ℕ, ◌+◌, ◌-◌, ◌*◌, Bool, true, false, not, ◌||◌, List, [], ◌∷◌, ◌++◌, Option, none, some, Outcome,
  ok, panic, ◌>>=◌, or_panic, ◌==◌, if◌then◌else◌, length, take, drop, get_elem?,
}

-- EncodeToString and DecodeString; none is an error.
pub record Hex : Type 0 where
  pub encode_to_string : List ℕ → List ℕ
  pub decode_string : List ℕ → Option (List ℕ)

-- The bytes of a LogID.
abbrev pub log_id_size : ℕ
log_id_size = 16

-- The first or the last byte is no quote.
abbrev pub lacks_quote : ℕ → ℕ → Bool
lacks_quote first last = not (first == b'"') || not (last == b'"')

module _ (lib : Hex) where
  -- Hex, and String
  unfoldable pub hex : List ℕ → List ℕ
  hex id = lib.encode_to_string id

  abbrev pub sized : Option (List ℕ) → Option (List ℕ)
  sized none = none
  sized (some buf) = if length buf == log_id_size then some buf else none

  -- Unhex; none is an error.
  unfoldable pub unhex : List ℕ → Option (List ℕ)
  unhex str = sized (lib.decode_string str)

  unfoldable pub marshal_json : List ℕ → List ℕ
  unfolding hex
  marshal_json id = (b'"' ∷ []) ++ hex id ++ (b'"' ∷ [])

  unfoldable pub unmarshal_json : List ℕ → Outcome (Option (List ℕ))
  unfolding unhex
  unmarshal_json text =
      if not (length text == log_id_size * 2 + 2)
      then ok none
      else (or_panic (get_elem? text 0) >>= λ first.
          or_panic (get_elem? text (length text - 1)) >>= λ last.
          if lacks_quote first last
          then ok none
          else ok (unhex (take (length text - 2) (drop 1 text))))
