-- ===== src/Types/LogId/Json.antt =====
-- Which JSON texts are those of a LogID.
use goapptrace.Base.{
  ℕ, suc, ◌+◌, ◌-◌, ◌*◌, ◌≡◌, ◌≢◌, ◌↔◌, refl, sym, ap, subst, arith, true, false, List, [], ◌∷◌,
  ◌++◌, Option, none, some, ok, panic, ◌==◌, if◌then◌else◌, length, get_elem?, length-append,
  take-append_length, ok-injective, Bool-cases, inl, inr,
}
use goapptrace.Types.LogId.{Hex, sized, unhex, marshal_json, unmarshal_json, lacks_quote}

-- What the documentation of encoding/hex says: two digits for a byte, and decoding gives back what was
-- encoded.
pub record IsHex (lib : Hex) : Type 0 where
  pub decode-encode : (b : List ℕ) → lib.decode_string (lib.encode_to_string b) ≡ some b
  pub length-decode : (s b : List ℕ) → lib.decode_string s ≡ some b → length s ≡ length b * 2

some-injective {ℓ} : {A : Type ℓ} {a b : A} → some a ≡ some b → a ≡ b
some-injective h = cc

-- A quoted text.
abbrev pub quoted : List ℕ → List ℕ
quoted s = (b'"' ∷ []) ++ s ++ (b'"' ∷ [])

get_elem?-last : (s : List ℕ) (a : ℕ) → get_elem? (s ++ (a ∷ [])) (length s) ≡ some a
get_elem?-last [] a = refl
get_elem?-last (x ∷ s) a = get_elem?-last s a

-- A list that is not empty, as its last element and those before.
split_last : (x : ℕ) (xs : List ℕ) → (s : List ℕ) × (a : ℕ) × (x ∷ xs ≡ s ++ (a ∷ []))
split_last x [] = ([], x, refl)
split_last x (y ∷ xs) = let (s, a, e) = split_last y xs in (x ∷ s, a, ap (◌∷◌ x) e)

quotes : (first last : ℕ) → lacks_quote first last ≡ false → (first ≡ b'"') × (last ≡ b'"')
quotes first last h = ground arith

module _ (lib : Hex) (laws : IsHex lib) where
  unmarshal_json-parts :
      (first last : ℕ) (s : List ℕ)
      → unmarshal_json lib (first ∷ s ++ (last ∷ [])) ≡ (
          if length s == 32
          then (if lacks_quote first last then ok none else ok (unhex lib s))
          else ok none)
  unfolding unmarshal_json
  unmarshal_json-parts first last s =
      let text : List ℕ = first ∷ s ++ (last ∷ []) in
      let size : length text ≡ length s + 2 = omega (arith, length-append s (last ∷ [])) in
      let test : (length text == 34) ≡ (length s == 32) = ground arith in
      let end : length text - 1 ≡ suc (length s) = omega arith in
      let inner : length text - 2 ≡ length s = omega arith in
      rw (test, end, inner, get_elem?-last s last, take-append_length s (last ∷ []))
        (elim (Bool-cases (length s == 32)) [ inl e ↦ rw e refl | inr e ↦ rw e refl ])

  sized-some :
      (o : Option (List ℕ)) (id : List ℕ) → sized lib o ≡ some id → (o ≡ some id) × (length id ≡ 16)
  sized-some none id h = cc
  sized-some (some buf) id h = elim (Bool-cases (length buf == 16)) [
    | inl e ↦
        let same : buf ≡ id = some-injective (rw e at h) in
        (ap some same, rw (← same) (ground arith))
    | inr e ↦ (let no : none ≡ some id = rw e at h in cc)
  ]

  -- A text of two bytes or more, as its first and last byte and those between.
  abbrev pub Reads : List ℕ → List ℕ → Type 0
  Reads text id =
      (s : List ℕ) × (text ≡ quoted s) × (lib.decode_string s ≡ some id) × (length id ≡ 16)

  accepted-Reads :
      (first last : ℕ) (s id : List ℕ)
      → unmarshal_json lib (first ∷ s ++ (last ∷ [])) ≡ ok (some id)
      → Reads (first ∷ s ++ (last ∷ [])) id
  unfolding unhex
  accepted-Reads first last s id h = elim (Bool-cases (length s == 32)) [
    | inr e ↦
        (let no : ok none ≡ ok (some id) = rw (unmarshal_json-parts first last s, e) at h in cc)
    | inl e ↦ elim (Bool-cases (lacks_quote first last)) [
      | inl q ↦
          (let no : ok none ≡ ok (some id) = rw (unmarshal_json-parts first last s, e, q) at h in
            cc)
      | inr q ↦
          let (first_quote, last_quote) = quotes first last q in
          let (decoded, size) =
            sized-some (lib.decode_string s) id
              (ok-injective (rw (unmarshal_json-parts first last s, e, q) at h)) in
          (s, rw (first_quote, last_quote) refl, decoded, size)
    ]
  ]

  Reads-accepted : (text id : List ℕ) → Reads text id → unmarshal_json lib text ≡ ok (some id)
  unfolding unhex
  Reads-accepted text id (s, e, decoded, size) =
      let digits : (length s == 32) ≡ true = ground (arith, laws.length-decode s id decoded) in
      let sixteen : (length id == 16) ≡ true = ground arith in
      rw (e, unmarshal_json-parts b'"' b'"' s, digits, decoded, sixteen) refl

  returns-parts :
      (first last : ℕ) (s : List ℕ) → unmarshal_json lib (first ∷ s ++ (last ∷ [])) ≢ panic
  returns-parts first last s h = elim (Bool-cases (length s == 32)) [
    | inr e ↦ (let no : ok none ≡ panic = rw (unmarshal_json-parts first last s, e) at h in cc)
    | inl e ↦ elim (Bool-cases (lacks_quote first last)) [
      | inl q ↦ (let no : ok none ≡ panic = rw (unmarshal_json-parts first last s, e, q) at h in cc)
      | inr q ↦
          (let no : ok (unhex lib s) ≡ panic = rw (unmarshal_json-parts first last s, e, q) at h in
            cc)
    ]
  ]

  abbrev Decides : List ℕ → List ℕ → Type 0
  Decides text id =
      (unmarshal_json lib text ≢ panic) × ((unmarshal_json lib text ≡ ok (some id)) ↔ Reads text id)

  short-Decides : (id : List ℕ) → Decides [] id × ((x : ℕ) → Decides (x ∷ []) id)
  unfolding unmarshal_json
  short-Decides id = (
    (λ h. cc, (λ h. cc, Reads-accepted [] id)),
    λ x. (λ h. cc, (λ h. cc, Reads-accepted (x ∷ []) id)),
  )

  -- UnmarshalJSON never panics, and it accepts exactly the texts of digits between two quotes that decode
  -- to 16 bytes, which are then the ID.
  pub unmarshal_json_iff :
      (text id : List ℕ)
      → (unmarshal_json lib text ≢ panic)
        × ((unmarshal_json lib text ≡ ok (some id)) ↔ Reads text id)
  unmarshal_json_iff [] id = (short-Decides id).0
  unmarshal_json_iff (x ∷ []) id = (short-Decides id).1 x
  unmarshal_json_iff (x ∷ y ∷ ys) id =
      let (s, last, e) = split_last y ys in
      subst (λ t. Decides (x ∷ t) id) (sym e)
        (
          returns-parts x last s,
          (accepted-Reads x last s id, Reads-accepted (x ∷ s ++ (last ∷ [])) id),
        )

  -- The text that MarshalJSON makes of an ID of 16 bytes is read back.
  pub unmarshal_json-marshal_json :
      (id : List ℕ) → length id ≡ 16 → unmarshal_json lib (marshal_json lib id) ≡ ok (some id)
  unfolding marshal_json
  unmarshal_json-marshal_json id h =
      Reads-accepted (marshal_json lib id) id
        (lib.encode_to_string id, refl, laws.decode-encode id, h)
