-- ===== src/Restapi/Narrowing/Ranges.antt =====
-- The range of IDs of the records of an index that overlap the bounds of a search.
use goapptrace.Base.{
  ℕ, zero, suc, ◌≡◌, refl, sym, subst, arith, Bool, true, false, List, [], ◌∷◌, some, All,
  some-injective, get_elem?,
}
use goapptrace.Base.Int.{ℤ, ◌≤ℤ◌}
use goapptrace.Storage.Index.{IndexRecord, Range, widen_if}
use goapptrace.Storage.Index.Ranges.{Within, widen_if-widens, widen_if-Within, widen_if-found}
use goapptrace.Restapi.Narrowing.{SearchFuncLogParams, overlaps, index_range}

module _ (p : SearchFuncLogParams) where
  index_range-widens :
      (rs : List IndexRecord) (r : Range)
      → ((index_range p rs r).start_id ≤ℤ r.start_id) × (r.end_id ≤ℤ (index_range p rs r).end_id)
  unfolding index_range
  index_range-widens [] r = omega arith
  index_range-widens (ir ∷ rs) r =
      let b = overlaps p ir in
      omega (arith, index_range-widens rs (widen_if b ir r), widen_if-widens b ir r)

  index_range-keeps_found :
      (rs : List IndexRecord) (r : Range) → r.found ≡ true → (index_range p rs r).found ≡ true
  unfolding index_range
  index_range-keeps_found [] r f = f
  index_range-keeps_found (ir ∷ rs) r f =
      index_range-keeps_found rs (widen_if (overlaps p ir) ir r)
        (widen_if-found (overlaps p ir) ir r f)

  index_range-first :
      (rs : List IndexRecord) (r : Range) (ir : IndexRecord)
      → overlaps p ir ≡ true
      → ((index_range p (ir ∷ rs) r).found ≡ true)
        × Within ir (index_range p (ir ∷ rs) r).start_id (index_range p (ir ∷ rs) r).end_id
  unfolding index_range
  index_range-first rs r ir o =
      let b = overlaps p ir in
      (
        index_range-keeps_found rs (widen_if b ir r) (rw o refl),
        omega (arith, index_range-widens rs (widen_if b ir r), widen_if-Within b ir r o),
      )

  -- A record that overlaps is found and lies within the range.
  pub index_range-Within :
      (rs : List IndexRecord) (r : Range) (i : ℕ) (ir : IndexRecord)
      → get_elem? rs i ≡ some ir
      → overlaps p ir ≡ true
      → ((index_range p rs r).found ≡ true)
        × Within ir (index_range p rs r).start_id (index_range p rs r).end_id
  unfolding index_range
  index_range-Within [] r i ir at o = ground arith
  index_range-Within (ir' ∷ rs) r zero ir at o =
      let same : ir ≡ ir' = sym (some-injective at) in
      rw same (index_range-first rs r ir' (subst (λ j. overlaps p j ≡ true) same o))
  index_range-Within (ir' ∷ rs) r (suc i) ir at o =
      index_range-Within rs (widen_if (overlaps p ir') ir' r) i ir at o

  pub index_range-none :
      (rs : List IndexRecord) (r : Range)
      → All (λ ir. overlaps p ir ≡ false) rs
      → index_range p rs r ≡ r
  unfolding index_range
  index_range-none [] r all = refl
  index_range-none (ir ∷ rs) r (e, all) = rw e (index_range-none rs r all)

-- The IDs of a record that overlaps lie within the bounds, which the assertion wants.
abbrev pub IsWhole : SearchFuncLogParams → IndexRecord → Type 0
IsWhole p ir = overlaps p ir ≡ true → (p.min_id ≤ℤ ir.min_id) × (ir.max_id ≤ℤ p.max_id)

widen_if-inside :
    (b : Bool) (ir : IndexRecord) (r : Range) (lo hi : ℤ)
    → (b ≡ true → (lo ≤ℤ ir.min_id) × (ir.max_id ≤ℤ hi))
    → lo ≤ℤ r.start_id
    → r.end_id ≤ℤ hi
    → (lo ≤ℤ (widen_if b ir r).start_id) × ((widen_if b ir r).end_id ≤ℤ hi)
widen_if-inside true ir r lo hi whole from to = let (a, b) = whole refl in ground arith
widen_if-inside false ir r lo hi whole from to = (from, to)

pub index_range-inside :
    (p : SearchFuncLogParams) (rs : List IndexRecord) (r : Range)
    → All (IsWhole p) rs
    → p.min_id ≤ℤ r.start_id
    → r.end_id ≤ℤ p.max_id
    → (p.min_id ≤ℤ (index_range p rs r).start_id) × ((index_range p rs r).end_id ≤ℤ p.max_id)
unfolding index_range
index_range-inside p [] r all from to = (from, to)
index_range-inside p (ir ∷ rs) r (whole, all) from to =
    let (a, b) = widen_if-inside (overlaps p ir) ir r p.min_id p.max_id whole from to in
    index_range-inside p rs (widen_if (overlaps p ir) ir r) all a b
