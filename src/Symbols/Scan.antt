-- ===== src/Symbols/Scan.antt =====
-- The loop of GoFunc and GoLine finds the last element at or below the PC.
use goapptrace.Base.{
  ℕ, zero, suc, ◌+◌, ◌≤◌, ◌<◌, ◌≡◌, ◌∙◌, ap, arith, Option, none, some, List, [], ◌∷◌, ok, ◌>>=◌,
  or_panic, ltb, leb, if◌then◌else◌, get_elem?, ◌⊎◌, inl, inr, Bool-cases,
}
use goapptrace.Types.{GoModule}
use goapptrace.Symbols.{scan, indexed}
use native.Mathlib.Nat.{add-zero}

module _ {ℓ} {A : Type ℓ} (key : A → ℕ) (m : GoModule) (pc : ℕ) where
  -- The keys rise strictly above `lo`.
  abbrev pub Ascending : ℕ → List A → Type 0
  Ascending lo [] = Unit {0}
  Ascending lo (x ∷ xs) = (lo < key x) × Ascending (key x) xs

  -- The same loop, keeping the element instead of its index.
  pub scan_elem : List A → Option A → Option A
  scan_elem [] best = best
  scan_elem (x ∷ xs) best =
      let skipped = scan_elem xs best in
      let advanced = scan_elem xs (some x) in
      if ltb (key x) m.min_pc
      then skipped
      else if ltb m.max_pc (key x)
      then best
      else if leb (key x) pc
      then advanced
      else best

  pub indexed-scan :
      (all xs : List A) (i : ℕ) (best : Option ℕ) (b : Option A)
      → ((j : ℕ) → get_elem? all (i + j) ≡ get_elem? xs j)
      → indexed all best ≡ ok b
      → indexed all (scan key m pc xs i best) ≡ ok (scan_elem xs b)
  unfolding scan scan_elem indexed
  indexed-scan all [] i best b h e = e
  indexed-scan all (x ∷ xs) i best b h e =
      let here : get_elem? all i ≡ some x = rw add-zero at (h 0) in
      let later = λ (j : ℕ). ap (get_elem? all) (shift i j) ∙ h (suc j) in
      let found : (or_panic (get_elem? all i) >>= λ y. ok (some y)) ≡ ok (some x) = rw here in
      ground (
        arith,
        e,
        indexed-scan all xs (i + 1) best b later e,
        indexed-scan all xs (i + 1) (some i) (some x) later found,
      )
    where
      shift : (i j : ℕ) → i + 1 + j ≡ i + suc j
      shift i j = omega arith

  -- An element that the loop may find.
  abbrev pub IsCandidate : A → Type 0
  IsCandidate x = (m.min_pc ≤ key x) × (key x ≤ pc)

  abbrev pub FoundIn : List A → A → Type ℓ
  FoundIn xs x = (j : ℕ) × (get_elem? xs j ≡ some x) × IsCandidate x

  found_later : (y : A) (ys : List A) (x : A) → FoundIn ys x → FoundIn (y ∷ ys) x
  found_later y ys x (j, e, c) = (suc j, e, c)

  -- What the loop finds was found before, or is a candidate of the list.
  pub scan_elem_sound :
      (xs : List A) (b : Option A) (x : A) → scan_elem xs b ≡ some x → (b ≡ some x) ⊎ FoundIn xs x
  unfolding scan_elem
  scan_elem_sound [] b x e = inl e
  scan_elem_sound (y ∷ ys) b x e = elim (Bool-cases (ltb (key y) m.min_pc)) [
    | inl below ↦ elim (scan_elem_sound ys b x (rw below at e)) [
      | inl old ↦ inl old
      | inr new ↦ inr (found_later y ys x new)
    ]
    | inr inside ↦ elim (Bool-cases (ltb m.max_pc (key y))) [
      | inl above ↦ inl (rw (inside, above) at e)
      | inr within ↦ elim (Bool-cases (leb (key y) pc)) [
        | inl reached ↦ elim (scan_elem_sound ys (some y) x (rw (inside, within, reached) at e)) [
          | inl old ↦ inr (zero, old, ground arith)
          | inr new ↦ inr (found_later y ys x new)
        ]
        | inr past ↦ inl (rw (inside, within, past) at e)
      ]
    ]
  ]

  -- There is a result, and its key is at least `k`.
  abbrev pub AtLeast : ℕ → Option A → Type 0
  AtLeast k none = ⊥
  AtLeast k (some x) = k ≤ key x

  Ascending-later :
      (xs : List A) (lo j : ℕ) (y : A) → Ascending lo xs → get_elem? xs j ≡ some y → lo < key y
  Ascending-later [] lo j y a e = cc
  Ascending-later (x ∷ xs) lo zero y a e = ground arith
  Ascending-later (x ∷ xs) lo (suc j) y a e =
      let r = Ascending-later xs (key x) j y a.1 e in omega arith

  scan_elem-rises :
      (xs : List A) (x0 : A) (k lo : ℕ)
      → k ≤ key x0
      → k ≤ lo
      → Ascending lo xs
      → AtLeast k (scan_elem xs (some x0))
  unfolding scan_elem
  scan_elem-rises [] x0 k lo h g a = h
  scan_elem-rises (x ∷ xs) x0 k lo h g a =
      ground (arith, scan_elem-rises xs x0 k (key x), scan_elem-rises xs x k (key x))

  -- Where the list has a candidate, the result is there and is no earlier.
  pub scan_elem-last :
      (xs : List A) (b : Option A) (lo j : ℕ) (y : A)
      → pc ≤ m.max_pc
      → Ascending lo xs
      → get_elem? xs j ≡ some y
      → IsCandidate y
      → AtLeast (key y) (scan_elem xs b)
  unfolding scan_elem
  scan_elem-last [] b lo j y h a e c = cc
  scan_elem-last (x ∷ xs) b lo zero y h a e c =
      let same : x ≡ y = cc in
      rw (← same) (ground (arith, ap key same, scan_elem-rises xs x (key x) (key x)))
  scan_elem-last (x ∷ xs) b lo (suc j) y h a e c = ground (
    arith,
    Ascending-later xs (key x) j y a.1 e,
    scan_elem-last xs b (key x) j y h a.1 e c,
    scan_elem-last xs (some x) (key x) j y h a.1 e c,
  )
