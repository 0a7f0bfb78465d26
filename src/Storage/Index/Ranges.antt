-- ===== src/Storage/Index/Ranges.antt =====
-- What IDRangeByTime finds.
use goapptrace.Base.{
  ◌≡◌, ◌⊎◌, ◌↔◌, inl, inr, refl, sym, subst, ◌∙◌, arith, Bool, true, false, List, [], ◌∷◌, All,
  Bool-cases,
}
use goapptrace.Base.Int.{ℤ, pos, IsInt64, ◌≤ℤ◌, ltb_ℤ}
use goapptrace.Storage.Index.{
  IndexRecord, Range, is_overlap, is_overlap_time, widen, widen_if, scan, no_range, max_int64,
  min_int64, id_range_of,
}

-- Two ranges that are not empty overlap where some number is in both.
pub is_overlap_iff :
    (a b c d : ℤ)
    → a ≤ℤ b
    → c ≤ℤ d
    → (is_overlap a b c d ≡ true) ↔ ((x : ℤ) × (a ≤ℤ x) × (x ≤ℤ b) × (c ≤ℤ x) × (x ≤ℤ d))
is_overlap_iff a b c d ab cd = (
  λ h. elim (Bool-cases (ltb_ℤ a c)) [
    | inl e ↦ (c, ground arith, ground arith, ground arith, cd)
    | inr e ↦ (a, ground arith, ab, ground arith, ground arith)
  ],
  λ (x, ax, xb, cx, xd). ground arith,
)

abbrev pub Within : IndexRecord → ℤ → ℤ → Type 0
Within ir s e = (s ≤ℤ ir.min_id) × (ir.max_id ≤ℤ e)

pub widen_if-widens :
    (b : Bool) (ir : IndexRecord) (r : Range)
    → ((widen_if b ir r).start_id ≤ℤ r.start_id) × (r.end_id ≤ℤ (widen_if b ir r).end_id)
widen_if-widens true ir r = ground arith
widen_if-widens false ir r = ground arith

pub widen_if-Within :
    (b : Bool) (ir : IndexRecord) (r : Range)
    → b ≡ true
    → Within ir (widen_if b ir r).start_id (widen_if b ir r).end_id
widen_if-Within true ir r e = ground arith
widen_if-Within false ir r e = ground arith

least_int64 : (s a : ℤ) → IsInt64 a → s ≤ℤ a → s ≡ max_int64 → a ≡ s
least_int64 s a h le m = rw m (ground (arith, subst (λ s. s ≤ℤ a) m le))

greatest_int64 : (e a : ℤ) → IsInt64 a → a ≤ℤ e → e ≡ min_int64 → a ≡ e
greatest_int64 e a h le m = rw m (ground (arith, subst (λ e. a ≤ℤ e) m le))

widen_if-start :
    (b : Bool) (ir : IndexRecord) (r : Range)
    → ((widen_if b ir r).start_id ≡ r.start_id)
      ⊎ ((b ≡ true) × (ir.min_id ≡ (widen_if b ir r).start_id))
widen_if-start true ir r = ground arith
widen_if-start false ir r = inl refl

widen_if-end :
    (b : Bool) (ir : IndexRecord) (r : Range)
    → ((widen_if b ir r).end_id ≡ r.end_id) ⊎ ((b ≡ true) × (ir.max_id ≡ (widen_if b ir r).end_id))
widen_if-end true ir r = ground arith
widen_if-end false ir r = inl refl

pub widen_if-found :
    (b : Bool) (ir : IndexRecord) (r : Range) → r.found ≡ true → (widen_if b ir r).found ≡ true
widen_if-found true ir r f = refl
widen_if-found false ir r f = f

module _ (start end : ℤ) where
  -- Each record that overlaps the time has its IDs within the range.
  abbrev pub Covers : ℤ → ℤ → List IndexRecord → Type 0
  Covers s e rs = All (λ ir. is_overlap_time ir start end ≡ true → Within ir s e) rs

  scan-widens :
      (rs : List IndexRecord) (r : Range)
      → ((scan start end rs r).start_id ≤ℤ r.start_id) × (r.end_id ≤ℤ (scan start end rs r).end_id)
  unfolding scan
  scan-widens [] r = omega arith
  scan-widens (ir ∷ rs) r =
      let b = is_overlap_time ir start end in
      omega (arith, scan-widens rs (widen_if b ir r), widen_if-widens b ir r)

  scan-Covers :
      (rs : List IndexRecord) (r : Range)
      → Covers (scan start end rs r).start_id (scan start end rs r).end_id rs
  unfolding scan
  scan-Covers [] r = tt
  scan-Covers (ir ∷ rs) r =
      let b = is_overlap_time ir start end in
      (
        λ e. omega (arith, scan-widens rs (widen_if b ir r), widen_if-Within b ir r e),
        scan-Covers rs (widen_if b ir r),
      )

  -- Some record that overlaps the time has the property.
  abbrev pub Some : (IndexRecord → Type 0) → List IndexRecord → Type 0
  Some P [] = ⊥
  Some P (ir ∷ rs) = ((is_overlap_time ir start end ≡ true) × P ir) ⊎ Some P rs

  abbrev pub NoOverlap : List IndexRecord → Type 0
  NoOverlap rs = All (λ ir. is_overlap_time ir start end ≡ false) rs

  -- The ends of the range are those before or the IDs of records that overlap.
  scan-start :
      (rs : List IndexRecord) (r : Range)
      → ((scan start end rs r).start_id ≡ r.start_id)
        ⊎ Some (λ ir. ir.min_id ≡ (scan start end rs r).start_id) rs
  unfolding scan
  scan-start [] r = inl refl
  scan-start (ir ∷ rs) r =
      let b = is_overlap_time ir start end in
      elim (scan-start rs (widen_if b ir r)) [
        | inl e ↦ elim (widen_if-start b ir r) [
          | inl e' ↦ inl (e ∙ e')
          | inr (o, e') ↦ inr (inl (o, e' ∙ sym e))
        ]
        | inr s ↦ inr (inr s)
      ]

  scan-end :
      (rs : List IndexRecord) (r : Range)
      → ((scan start end rs r).end_id ≡ r.end_id)
        ⊎ Some (λ ir. ir.max_id ≡ (scan start end rs r).end_id) rs
  unfolding scan
  scan-end [] r = inl refl
  scan-end (ir ∷ rs) r =
      let b = is_overlap_time ir start end in
      elim (scan-end rs (widen_if b ir r)) [
        | inl e ↦ elim (widen_if-end b ir r) [
          | inl e' ↦ inl (e ∙ e')
          | inr (o, e') ↦ inr (inl (o, e' ∙ sym e))
        ]
        | inr s ↦ inr (inr s)
      ]

  scan-keeps_found :
      (rs : List IndexRecord) (r : Range) → r.found ≡ true → (scan start end rs r).found ≡ true
  unfolding scan
  scan-keeps_found [] r f = f
  scan-keeps_found (ir ∷ rs) r f =
      scan-keeps_found rs _ (widen_if-found (is_overlap_time ir start end) ir r f)

  scan-found :
      (rs : List IndexRecord) (r : Range)
      → (((scan start end rs r).found ≡ true) × Some (λ ir. Unit {0}) rs)
        ⊎ (NoOverlap rs × (scan start end rs r ≡ r))
  unfolding scan
  scan-found [] r = inr (tt, refl)
  scan-found (ir ∷ rs) r = elim (Bool-cases (is_overlap_time ir start end)) [
    | inl e ↦ inl (rw (e, scan) (scan-keeps_found rs (widen ir r) refl), inl (e, tt))
    | inr e ↦ elim (scan-found rs r) [
      | inl (f, some_later) ↦ inl (rw (e, scan) f, inr some_later)
      | inr (none_later, same) ↦ inr ((e, none_later), rw (e, scan) same)
    ]
  ]

  -- The first values of the ends are no smaller and no larger than any ID.
  start-attained :
      (rs : List IndexRecord) (s e : ℤ)
      → All (λ ir. IsInt64 ir.min_id × IsInt64 ir.max_id) rs
      → Covers s e rs
      → Some (λ ir. Unit {0}) rs
      → s ≡ max_int64
      → Some (λ ir. ir.min_id ≡ s) rs
  start-attained [] s e h c x m = x
  start-attained (ir ∷ rs) s e h c (inl (o, _)) m =
      inl (o, least_int64 s ir.min_id h.0.0 (c.0 o).0 m)
  start-attained (ir ∷ rs) s e h c (inr x) m = inr (start-attained rs s e h.1 c.1 x m)

  end-attained :
      (rs : List IndexRecord) (s e : ℤ)
      → All (λ ir. IsInt64 ir.min_id × IsInt64 ir.max_id) rs
      → Covers s e rs
      → Some (λ ir. Unit {0}) rs
      → e ≡ min_int64
      → Some (λ ir. ir.max_id ≡ e) rs
  end-attained [] s e h c x m = x
  end-attained (ir ∷ rs) s e h c (inl (o, _)) m =
      inl (o, greatest_int64 e ir.max_id h.0.1 (c.0 o).1 m)
  end-attained (ir ∷ rs) s e h c (inr x) m = inr (end-attained rs s e h.1 c.1 x m)

  -- For records whose IDs are int64, IDRangeByTime gives the least range with the IDs of all records
  -- that overlap the time: it has all of them, and its ends are the MinID and the MaxID of two of
  -- them. Where no record overlaps it gives (0, 0).
  pub id_range_of-least :
      (rs : List IndexRecord)
      → All (λ ir. IsInt64 ir.min_id × IsInt64 ir.max_id) rs
      → let (a, b) = id_range_of start end rs in
        (NoOverlap rs × (a ≡ pos 0) × (b ≡ pos 0))
        ⊎ (Covers a b rs × Some (λ ir. ir.min_id ≡ a) rs × Some (λ ir. ir.max_id ≡ b) rs)
  unfolding id_range_of
  id_range_of-least rs h =
      let r = scan start end rs no_range in
      let covers = scan-Covers rs no_range in
      elim (scan-found rs no_range) [
        | inl (f, x) ↦ inr (
            rw f (
              covers,
              elim (scan-start rs no_range) [
                | inl e ↦ start-attained rs r.start_id r.end_id h covers x e
                | inr y ↦ y
              ],
              elim (scan-end rs no_range) [
                | inl e ↦ end-attained rs r.start_id r.end_id h covers x e
                | inr y ↦ y
              ],
            ))
        | inr (n, same) ↦ inl (n, rw same, rw same)
      ]
