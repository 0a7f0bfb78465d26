-- ===== src/Symbols/Split.antt =====
-- GoFunc.ShortName and GoFunc.PackagePath cut a function's name at the first dot after the last slash.
use goapptrace.Base.{
  ℕ, zero, suc, ◌+◌, ◌≡◌, refl, ◌∙◌, ap, sym, arith, Option, none, some, List, [], ◌∷◌, ◌++◌, ◌==◌,
  ==_iff, if◌then◌else◌, take, drop, inl, inr, Option-cases, Bool-cases, take-append-drop,
  append_assoc,
}
use native.Mathlib.Nat.{zero-add, suc-add}

-- strings.IndexByte; `none` is -1.
unfoldable pub index_byte : ℕ → List ℕ → Option ℕ
index_byte c [] = none
index_byte c (b ∷ bs) =
    if b == c then some 0 else (elim (index_byte c bs) [ none ↦ none | some i ↦ some (suc i) ])

-- strings.LastIndexByte
unfoldable pub last_index_byte : ℕ → List ℕ → Option ℕ
last_index_byte c [] = none
last_index_byte c (b ∷ bs) = elim (last_index_byte c bs) [
  | some i ↦ some (suc i)
  | none ↦ if b == c then some 0 else none
]

-- f.Name[p1+1:], also for p1 = -1
abbrev after_index : Option ℕ → List ℕ → List ℕ
after_index none name = name
after_index (some p) name = drop (p + 1) name

-- p1+1
abbrev past : Option ℕ → ℕ
past none = 0
past (some p) = p + 1

unfoldable pub short_name : List ℕ → List ℕ
unfolding index_byte last_index_byte
short_name name =
    let tmp1 = after_index (last_index_byte b'/' name) name in
    after_index (index_byte b'.' tmp1) tmp1

unfoldable pub package_path : List ℕ → List ℕ
unfolding index_byte last_index_byte
package_path name =
    let p1 = last_index_byte b'/' name in
    let tmp1 = after_index p1 name in
    elim (index_byte b'.' tmp1) [ some p2 ↦ take (past p1 + p2) name | none ↦ tmp1 ]

take-index_byte :
    (c : ℕ) (xs : List ℕ) (p : ℕ)
    → index_byte c xs ≡ some p
    → take p xs ++ (c ∷ drop (p + 1) xs) ≡ xs
unfolding index_byte
take-index_byte c [] p e = cc
take-index_byte c (x ∷ xs) zero e = elim (Bool-cases (x == c)) [
  | inl here ↦ ap (λ (b : ℕ). b ∷ xs) (sym ((==_iff x c).0 here))
  | inr there ↦ elim (Option-cases (index_byte c xs)) [
    | inl missing ↦ absurd (ground arith)
    | inr (i, found) ↦ absurd (ground arith)
  ]
]
take-index_byte c (x ∷ xs) (suc p) e = elim (Bool-cases (x == c)) [
  | inl here ↦ absurd (ground arith)
  | inr there ↦ elim (Option-cases (index_byte c xs)) [
    | inl missing ↦ absurd (ground arith)
    | inr (i, found) ↦
        let same : index_byte c xs ≡ some p = ground arith in
        rw suc-add (ap (◌∷◌ x) (take-index_byte c xs p same))
  ]
]

take-add : (m n : ℕ) (xs : List ℕ) → take (m + n) xs ≡ take m xs ++ take n (drop m xs)
take-add zero n xs = rw zero-add
take-add (suc m) zero [] = rw suc-add
take-add (suc m) (suc n) [] = rw suc-add
take-add (suc m) n (x ∷ xs) = rw suc-add (ap (◌∷◌ x) (take-add m n xs))

drop-past : (o : Option ℕ) (name : List ℕ) → after_index o name ≡ drop (past o) name
drop-past none name = refl
drop-past (some p) name = refl

-- A name whose last path element has a dot is the package path, that dot and the short name.
pub package_path-short_name :
    (name : List ℕ) (p : ℕ)
    → index_byte b'.' (after_index (last_index_byte b'/' name) name) ≡ some p
    → package_path name ++ (b'.' ∷ short_name name) ≡ name
unfolding package_path short_name
package_path-short_name name p e =
    let p1 = last_index_byte b'/' name in
    let tmp1 = after_index p1 name in
    let whole : take p tmp1 ++ (b'.' ∷ drop (p + 1) tmp1) ≡ tmp1 = take-index_byte b'.' tmp1 p e in
    let front : package_path name ≡ take (past p1) name ++ take p tmp1 =
      rw (e, package_path) (take-add (past p1) p name ∙ rw (drop-past p1 name)) in
    let back : short_name name ≡ drop (p + 1) tmp1 = rw (e, short_name) in
    rw (front, back)
      (append_assoc (take (past p1) name) (take p tmp1) _
        ∙ rw whole (rw (drop-past p1 name) (take-append-drop (past p1) name)))
