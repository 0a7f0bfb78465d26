-- ===== src/Viewer/Graph/Spans.antt =====
-- Where the gap line of a goroutine starts and ends.
use goapptrace.Base.{
  ℕ, zero, suc, sym, ap, ◌∙◌, refl, ◌⊎◌, Option, none, Bool, false, some, get_elem?, some-injective,
  if◌then◌else◌, ◌+◌, ◌≡◌, arith, true, List, [], ◌∷◌, ok, Bool-cases, inl, inr, ok-injective,
  panic_ne_ok, subst, All,
}
use goapptrace.Base.Int.{ℤ, pos, ltb_ℤ, sub_ℕ, ◌<ℤ◌, ◌≤ℤ◌, ◌==ℤ◌, ==ℤ_iff}
use goapptrace.Types.{FuncLog, Goroutine}
use goapptrace.Viewer.Graph.{
  Span, max_int, min_int, first_of, last_of, widened, span_from, no_span, span,
}

-- The span covers what the other one covers.
abbrev Covers : Span → Span → Type 0
Covers s t = (s.first ≤ℤ t.first) × (t.last ≤ℤ s.last)

-- The line of a call of the goroutine is in the span.
abbrev pub IsInside : ℤ → ℤ → ℤ → FuncLog × ℕ × ℕ → Type 0
IsInside gid first last (fc, x, len) = fc.gid ≡ gid → (first ≤ℤ pos x) × (pos (x + len) ≤ℤ last)

first_of_below :
    (g : Goroutine) (fc : FuncLog) (x : ℕ) (first : ℤ)
    → (first_of g fc x first ≤ℤ first) × (first_of g fc x first ≤ℤ pos x)
first_of_below g fc x first = (ground arith, ground arith)

last_of_above :
    (g : Goroutine) (fc : FuncLog) (end : ℕ) (last : ℤ)
    → (last ≤ℤ last_of g fc end last) × (pos end ≤ℤ last_of g fc end last)
last_of_above g fc end last = (ground arith, ground arith)

widened-Covers :
    (gid : ℤ) (g : Goroutine) (fc : FuncLog) (x len : ℕ) (s : Span)
    → Covers (widened gid g (fc, x, len) s) s
widened-Covers gid g fc x len s = elim (Bool-cases (fc.gid ==ℤ gid)) [
  | inl e ↦ rw e ((first_of_below g fc x s.first).0, (last_of_above g fc (x + len) s.last).0)
  | inr e ↦ rw e (omega arith, omega arith)
]

widened-IsInside :
    (gid : ℤ) (g : Goroutine) (fc : FuncLog) (x len : ℕ) (s t : Span)
    → Covers t (widened gid g (fc, x, len) s)
    → IsInside gid t.first t.last (fc, x, len)
widened-IsInside gid g fc x len s t covers own =
    let e : (fc.gid ==ℤ gid) ≡ true = (==ℤ_iff fc.gid gid).1 own in
    let (low, high) = rw e at covers in
    omega (arith, first_of_below g fc x s.first, last_of_above g fc (x + len) s.last)

span_from-Covers :
    (gid : ℤ) (g : Goroutine) (ps : List (FuncLog × ℕ × ℕ)) (s : Span)
    → Covers (span_from gid g ps s) s
      × All (IsInside gid (span_from gid g ps s).first (span_from gid g ps s).last) ps
unfolding span_from
span_from-Covers gid g [] s = ((omega arith, omega arith), tt)
span_from-Covers gid g ((fc, x, len) ∷ ps) s =
    let t : Span = widened gid g (fc, x, len) s in
    let ((low, high), inside) = span_from-Covers gid g ps t in
    let (low', high') = widened-Covers gid g fc x len s in
    (
      (omega arith, omega arith),
      (widened-IsInside gid g fc x len s (span_from gid g ps t) (low, high), inside),
    )

-- Where the gap line of a goroutine starts for its first call, and where it ends for its last one: one
-- column beside the call if the goroutine started before it, or ended behind it.
abbrev pub start_column : Goroutine → FuncLog → ℕ → ℤ
start_column g fc x = if ltb_ℤ g.start_time fc.start_time then sub_ℕ x 1 else pos x

abbrev pub end_column : Goroutine → FuncLog → ℕ → ℤ
end_column g fc end = if ltb_ℤ fc.end_time g.end_time then pos (end + 1) else pos end

-- Some call of the goroutine has the property, with its column and length.
abbrev pub Own : ℤ → (FuncLog → ℕ → ℕ → Type 0) → List (FuncLog × ℕ × ℕ) → Type 0
Own gid P ps =
    (i : ℕ) × (fc : FuncLog) × (x : ℕ) × (len : ℕ) × (get_elem? ps i ≡ some (fc, x, len))
    × (fc.gid ≡ gid)
    × P fc x len

Own-later :
    (gid : ℤ) (P : FuncLog → ℕ → ℕ → Type 0) (p : FuncLog × ℕ × ℕ) (ps : List (FuncLog × ℕ × ℕ))
    → Own gid P ps
    → Own gid P (p ∷ ps)
Own-later gid P p ps (i, fc, x, len, at, own, h) = (suc i, fc, x, len, at, own, h)

none-ne-some {ℓ} : {A : Type ℓ} {a : A} → ¬ (◌≡◌ {A = Option A} none (some a))
none-ne-some h = cc

false_ne_true : ¬ (◌≡◌ {A = Bool} false true)
false_ne_true h = cc

not_last : (first : ℤ) (x : ℕ) → first ≤ℤ pos x → pos x <ℤ max_int → ¬ (first ≡ max_int)
not_last first x low column e = ground (arith, subst (λ n. n ≤ℤ pos x) e low)

not_first : (last : ℤ) (n : ℕ) → pos n ≤ℤ last → ¬ (last ≡ min_int)
not_first last n high e = ground (arith, subst (λ m. pos n ≤ℤ m) e high)

All-at :
    (R : FuncLog × ℕ × ℕ → Type 0) (ps : List (FuncLog × ℕ × ℕ)) (i : ℕ) (p : FuncLog × ℕ × ℕ)
    → get_elem? ps i ≡ some p
    → All R ps
    → R p
All-at R [] i p at all = absurd (none-ne-some at)
All-at R (q ∷ ps) zero p at (here, all) = subst R (some-injective at) here
All-at R (q ∷ ps) (suc i) p at (here, all) = All-at R ps i p at all

module _ (gid : ℤ) (g : Goroutine) where
  abbrev Starts : ℤ → FuncLog → ℕ → ℕ → Type 0
  Starts first fc x len = first ≡ start_column g fc x

  abbrev Ends : ℤ → FuncLog → ℕ → ℕ → Type 0
  Ends last fc x len = last ≡ end_column g fc (x + len)

  abbrev Any : FuncLog → ℕ → ℕ → Type 0
  Any fc x len = Unit {0}

  widened-moves :
      (fc : FuncLog) (x len : ℕ) (s : Span)
      → let t = widened gid g (fc, x, len) s in
        (t ≡ s)
        ⊎ ((fc.gid ≡ gid)
            × ((t.first ≡ s.first) ⊎ (t.first ≡ start_column g fc x))
            × ((t.last ≡ s.last) ⊎ (t.last ≡ end_column g fc (x + len))))
  widened-moves fc x len s = elim (Bool-cases (fc.gid ==ℤ gid)) [
    | inr e ↦ rw e (inl refl)
    | inl e ↦ rw e (
        inr (
          (==ℤ_iff fc.gid gid).0 e,
          elim (Bool-cases (ltb_ℤ (pos x) s.first)) [
            | inl h ↦ rw h (inr refl)
            | inr h ↦ rw h (inl refl)
          ],
          elim (Bool-cases (ltb_ℤ s.last (pos (x + len)))) [
            | inl h ↦ rw h (inr refl)
            | inr h ↦ rw h (inl refl)
          ],
        ))
  ]

  span_from-first :
      (ps : List (FuncLog × ℕ × ℕ)) (s : Span)
      → ((span_from gid g ps s).first ≡ s.first) ⊎ Own gid (Starts (span_from gid g ps s).first) ps
  unfolding span_from
  span_from-first [] s = inl refl
  span_from-first ((fc, x, len) ∷ ps) s =
      let t : Span = widened gid g (fc, x, len) s in
      let u : Span = span_from gid g ps t in
      elim (span_from-first ps t) [
        | inr own ↦ inr (Own-later gid (Starts u.first) (fc, x, len) ps own)
        | inl e ↦ elim (widened-moves fc x len s) [
          | inl same ↦ inl (e ∙ ap (λ s. s.first) same)
          | inr (own, first, last) ↦ elim first [
            | inl e' ↦ inl (e ∙ e')
            | inr e' ↦ inr (zero, fc, x, len, refl, own, e ∙ e')
          ]
        ]
      ]

  span_from-last :
      (ps : List (FuncLog × ℕ × ℕ)) (s : Span)
      → ((span_from gid g ps s).last ≡ s.last) ⊎ Own gid (Ends (span_from gid g ps s).last) ps
  unfolding span_from
  span_from-last [] s = inl refl
  span_from-last ((fc, x, len) ∷ ps) s =
      let t : Span = widened gid g (fc, x, len) s in
      let u : Span = span_from gid g ps t in
      elim (span_from-last ps t) [
        | inr own ↦ inr (Own-later gid (Ends u.last) (fc, x, len) ps own)
        | inl e ↦ elim (widened-moves fc x len s) [
          | inl same ↦ inl (e ∙ ap (λ s. s.last) same)
          | inr (own, first, last) ↦ elim last [
            | inl e' ↦ inl (e ∙ e')
            | inr e' ↦ inr (zero, fc, x, len, refl, own, e ∙ e')
          ]
        ]
      ]

  span_from-exists :
      (ps : List (FuncLog × ℕ × ℕ)) (s : Span)
      → (span_from gid g ps s).exists ≡ true
      → (s.exists ≡ true) ⊎ Own gid Any ps
  unfolding span_from
  span_from-exists [] s h = inl h
  span_from-exists ((fc, x, len) ∷ ps) s h =
      elim (span_from-exists ps (widened gid g (fc, x, len) s) h) [
        | inr own ↦ inr (Own-later gid Any (fc, x, len) ps own)
        | inl e ↦ elim (widened-moves fc x len s) [
          | inl same ↦ inl (ap (λ s. s.exists) (sym same) ∙ e)
          | inr (own, first, last) ↦ inr (zero, fc, x, len, refl, own, tt)
        ]
      ]

  -- The columns fit an int and are not the largest one, so that both ends come from calls.
  abbrev pub IsColumn : FuncLog × ℕ × ℕ → Type 0
  IsColumn (fc, x, len) = pos x <ℤ max_int

  span_from-bounded :
      (ps : List (FuncLog × ℕ × ℕ))
      → (span_from gid g ps no_span).exists ≡ true
      → All IsColumn ps
      → Own gid (Starts (span_from gid g ps no_span).first) ps
        × Own gid (Ends (span_from gid g ps no_span).last) ps
  span_from-bounded ps found columns =
      let u : Span = span_from gid g ps no_span in
      let inside = (span_from-Covers gid g ps no_span).1 in
      elim (span_from-exists ps no_span found) [
        | inl e ↦ absurd (false_ne_true e)
        | inr (i, fc, x, len, at, own, _) ↦
            let (low, high) =
              All-at (IsInside gid u.first u.last) ps i (fc, x, len) at inside own in
            let column : pos x <ℤ max_int = All-at IsColumn ps i (fc, x, len) at columns in
            (
              elim (span_from-first ps no_span) [
                | inr starts ↦ starts
                | inl e ↦ absurd (not_last u.first x low column e)
              ],
              elim (span_from-last ps no_span) [
                | inr ends ↦ ends
                | inl e ↦ absurd (not_first u.last (x + len) high e)
              ],
            )
      ]

-- Let the columns of the calls be smaller than the largest int. Where a goroutine has a gap line, no line
-- of its calls starts before it or ends behind it; it starts at one of its calls, or one column before
-- it if the goroutine started before the call; and it ends at the end of one of its calls, or
-- one column behind it if the goroutine ended after the call.
pub span-IsInside :
    (ps : List (FuncLog × ℕ × ℕ)) (gid : ℤ) (g : Goroutine) (first last : ℤ)
    → All (IsColumn gid g) ps
    → span ps gid g ≡ ok (first, last)
    → All (IsInside gid first last) ps
      × Own gid (λ fc x len. first ≡ start_column g fc x) ps
      × Own gid (λ fc x len. last ≡ end_column g fc (x + len)) ps
unfolding span
span-IsInside ps gid g first last columns h =
    elim (Bool-cases (span_from gid g ps no_span).exists) [
      | inl e ↦
          subst
            (λ s.
              All (IsInside gid s.0 s.1) ps
              × Own gid (λ fc x len. s.0 ≡ start_column g fc x) ps
              × Own gid (λ fc x len. s.1 ≡ end_column g fc (x + len)) ps)
            (ok-injective (rw e at h))
            (
              (span_from-Covers gid g ps no_span).1,
              (span_from-bounded gid g ps e columns).0,
              (span_from-bounded gid g ps e columns).1,
            )
      | inr e ↦ absurd (panic_ne_ok (rw e at h))
    ]
