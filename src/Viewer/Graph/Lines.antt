-- ===== src/Viewer/Graph/Lines.antt =====
-- When the lines of a graph are built without a panic.
use goapptrace.Base.{
  ℕ, ◌+◌, ◌≡◌, ◌⊎◌, inl, inr, ◌↔◌, refl, sym, ◌∙◌, arith, Bool, true, false, ◌||◌, List, [], ◌∷◌,
  ◌++◌, ok, panic, panic_ne_ok, Bool-cases, if◌then◌else◌, All,
}
use goapptrace.Base.Int.{ℤ, pos, ◌≤ℤ◌, ltb_ℤ, ◌==ℤ◌}
use goapptrace.Types.{FuncLog, Goroutine}
use goapptrace.Types.Metadata.{UiConfig}
use goapptrace.Viewer.Graph.{
  Span, first_of, last_of, widened, span_from, no_span, span, Line, gap, gid_y, span_length,
  gap_line, gap_lines, func_lines, build_lines,
}
use goapptrace.Viewer.Graph.Positions.{HasLength, records_of, positions_iff, all-IsIn}

-- Whether a call of the goroutine is in the records.
abbrev pub has_call : ℤ → List FuncLog → Bool
has_call gid [] = false
has_call gid (fc ∷ fcs) = if fc.gid ==ℤ gid then true else has_call gid fcs

first_of_le : (g : Goroutine) (fc : FuncLog) (x : ℕ) (first : ℤ) → first_of g fc x first ≤ℤ pos x
first_of_le g fc x first = ground arith

last_of_ge : (g : Goroutine) (fc : FuncLog) (end : ℕ) (last : ℤ) → pos end ≤ℤ last_of g fc end last
last_of_ge g fc end last = ground arith

-- A span that exists is not negative.
abbrev IsSpan : Span → Type 0
IsSpan s = s.exists ≡ true → s.first ≤ℤ s.last

widened-IsSpan :
    (gid : ℤ) (g : Goroutine) (fc : FuncLog) (x len : ℕ) (s : Span)
    → IsSpan s
    → IsSpan (widened gid g (fc, x, len) s)
widened-IsSpan gid g fc x len s h = elim (Bool-cases (fc.gid ==ℤ gid)) [
  | inl e ↦ rw e λ k. omega (arith, first_of_le g fc x s.first, last_of_ge g fc (x + len) s.last)
  | inr e ↦ rw e h
]

span_from-IsSpan :
    (gid : ℤ) (g : Goroutine) (ps : List (FuncLog × ℕ × ℕ)) (s : Span)
    → IsSpan s
    → IsSpan (span_from gid g ps s)
unfolding span_from
span_from-IsSpan gid g [] s h = h
span_from-IsSpan gid g ((fc, x, len) ∷ ps) s h =
    span_from-IsSpan gid g ps (widened gid g (fc, x, len) s) (widened-IsSpan gid g fc x len s h)

-- It exists where the goroutine has a call.
span_from-has_call :
    (gid : ℤ) (g : Goroutine) (ps : List (FuncLog × ℕ × ℕ)) (s : Span)
    → (span_from gid g ps s).exists ≡ (s.exists || has_call gid (records_of ps))
unfolding span_from
span_from-has_call gid g [] s = elim (Bool-cases s.exists) [ inl e ↦ rw e refl | inr e ↦ rw e refl ]
span_from-has_call gid g ((fc, x, len) ∷ ps) s =
    span_from-has_call gid g ps (widened gid g (fc, x, len) s)
    ∙ elim (Bool-cases (fc.gid ==ℤ gid)) [
      | inl e ↦ rw e (elim (Bool-cases s.exists) [ inl e' ↦ rw e' refl | inr e' ↦ rw e' refl ])
      | inr e ↦ rw e refl
    ]

-- The span of a goroutine.
span-cases :
    (ps : List (FuncLog × ℕ × ℕ)) (gid : ℤ) (g : Goroutine)
    → ((has_call gid (records_of ps) ≡ true)
        × ((first : ℤ) × (last : ℤ) × (span ps gid g ≡ ok (first, last)) × (first ≤ℤ last)))
      ⊎ ((has_call gid (records_of ps) ≡ false) × (span ps gid g ≡ panic))
unfolding span
span-cases ps gid g =
    let s : Span = span_from gid g ps no_span in
    let known : s.exists ≡ has_call gid (records_of ps) = span_from-has_call gid g ps no_span in
    let ordered : IsSpan s = span_from-IsSpan gid g ps no_span (λ h. cc) in
    elim (Bool-cases s.exists) [
      | inl e ↦ inl (sym known ∙ e, (s.first, s.last, rw e refl, ordered e))
      | inr e ↦ inr (sym known ∙ e, rw e refl)
    ]

gap_line-ok :
    (gids : List ℤ) (gid first last : ℤ)
    → first ≤ℤ last
    → (l : Line) × (gap_line gids gid (first, last) ≡ ok l)
unfolding gap_line
gap_line-ok gids gid first last h =
    let test : ltb_ℤ last first ≡ false = ground arith in
    let l : Line = record {
      x = first;
      y = gid_y gids 0 gid;
      length = span_length (first, last);
      style = gap;
    } in
    (l, rw test refl)

-- Every goroutine has a call in the records.
abbrev pub HasCalls : List FuncLog → List (ℤ × Goroutine) → Type 0
HasCalls records gmap = All (λ p. has_call p.0 records ≡ true) gmap

gap_lines_iff :
    (gids : List ℤ) (ps : List (FuncLog × ℕ × ℕ)) (gmap : List (ℤ × Goroutine))
    → ((gap_lines gids ps gmap ≡ panic) × (HasCalls (records_of ps) gmap → ⊥))
      ⊎ (HasCalls (records_of ps) gmap × ((ls : List Line) × (gap_lines gids ps gmap ≡ ok ls)))
unfolding gap_lines
gap_lines_iff gids ps [] = inr (tt, ([], refl))
gap_lines_iff gids ps ((gid, g) ∷ gmap) = elim (span-cases ps gid g) [
  | inr (without, e) ↦ inl (rw e refl, (λ all. let both : false ≡ true = sym without ∙ all.0 in cc))
  | inl (here, (first, last, e, ordered)) ↦
      let (l, drawn) = gap_line-ok gids gid first last ordered in
      elim (gap_lines_iff gids ps gmap) [
        | inl (e', without) ↦ inl (rw (e, drawn, e') refl, (λ all. without all.1))
        | inr (all, (ls, e')) ↦ inr ((here, all), (l ∷ ls, rw (e, drawn, e') refl))
      ]
]

-- Whatever sort.Slice leaves in the records: buildLines returns lines exactly where every call starts
-- before it ends or, while it runs, before the latest time of the records, and every goroutine of
-- the log has a call in the records. Otherwise it panics.
pub build_lines_iff :
    (records : List FuncLog) (gmap : List (ℤ × Goroutine)) (gids : List ℤ) (selected : ℤ)
    (ui : UiConfig)
    → ((ls : List Line) × (build_lines records gmap gids selected ui ≡ ok ls))
      ↔ (All (HasLength records) records × HasCalls records gmap)
unfolding build_lines
build_lines_iff records gmap gids selected ui =
    elim (positions_iff records records (all-IsIn records)) [
      | inl (e, short) ↦ (λ r. absurd (panic_ne_ok (rw e at r.1)), λ h. absurd (short h.0))
      | inr (all, (ps, e, same)) ↦ elim (gap_lines_iff gids ps gmap) [
        | inl (e', without) ↦
            (λ r. absurd (panic_ne_ok (rw (e, e') at r.1)), λ h. absurd (without (rw same h.1)))
        | inr (calls, (ls, e')) ↦ (
          λ r. (all, rw same at calls),
          λ h. (ls ++ func_lines gids selected ui ps, rw (e, e') refl),
        )
      ]
    ]
