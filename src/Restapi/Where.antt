-- ===== src/Restapi/Where.antt =====
-- The WHERE clause of a search that is well typed does not panic.
use goapptrace.Base.{
  ◌≡◌, refl, Bool, true, false, not, ◌&&◌, List, [], ◌∷◌, none, Outcome, ok, Bool-cases, inl, inr,
  if◌then◌else◌, All,
}
use goapptrace.Sql.Rows.{Row}
use goapptrace.Sql.Expressions.{SqlAny}
use goapptrace.Sql.Evaluation.{Libraries, State, eval}
use goapptrace.Sql.Typing.{Typing}
use goapptrace.Base.Int.{ℤ, pos, ltb_ℤ, leb_ℤ, incr_int64}
use goapptrace.Restapi.{add_int64, sent_then, counted_line, run_lines, run, lines}

module _ {A W : Type 0} (clause : A → W → Outcome (Bool × W)) (sends : A → W → Outcome Bool)
    (offset rows : ℤ) (answers : (a : A) (w : W) → (b : Bool) × (sends a w ≡ ok b)) (P : A → Type 0)
    (I : W → Type 0)
    (returns : (a : A) (w : W)
      → P a
      → I w
      → (b : Bool) × (v : W) × (clause a w ≡ ok (b, v)) × I v) where
  Ends : Outcome (List A) → Type 0
  Ends o = (l : List A) × (o ≡ ok l)

  sent_then-Ends :
      (b : Bool) (a : A) (l : List A) → Ends (sent_then clause sends offset rows (ok b) a (ok l))
  unfolding Ends
  sent_then-Ends true a l = (a ∷ l, refl)
  sent_then-Ends false a l = ([], refl)

  line-Ends :
      (lineno : ℤ) (a : A) (w : W) (rest : Outcome (List A))
      → Ends rest
      → Ends (counted_line clause sends offset rows lineno (sends a w) a rest)
  unfolding Ends
  line-Ends lineno a w rest (l, e) = elim (Bool-cases (ltb_ℤ lineno offset)) [
    | inl early ↦ rw early (l, e)
    | inr late ↦ elim (Bool-cases (ltb_ℤ (pos 0) rows && leb_ℤ (add_int64 offset rows) lineno)) [
      | inl over ↦ rw (late, over) ([], refl)
      | inr within ↦
          let (b, answer) = answers a w in rw (late, within, answer, e) (sent_then-Ends b a l)
    ]
  ]

  body-Ends :
      (lineno : ℤ) (a : A) (w : W) (b : Bool) (skipped counted : Outcome (List A))
      → Ends skipped
      → Ends counted
      → Ends (
          if not b
          then skipped
          else counted_line clause sends offset rows lineno (sends a w) a counted)
  body-Ends lineno a w false skipped counted hs hc = hs
  body-Ends lineno a w true skipped counted hs hc = line-Ends lineno a w counted hc

  run_lines-Ends :
      (lineno : ℤ) (xs : List A) (w : W)
      → All P xs
      → I w
      → Ends (run_lines clause sends offset rows lineno xs w)
  unfolding Ends run_lines
  run_lines-Ends lineno [] w h i = ([], refl)
  run_lines-Ends lineno (a ∷ xs) w (first, rest) i =
      let (b, v, e, i') = returns a w first i in
      rw e (
        body-Ends (incr_int64 lineno) a v b _ _ (run_lines-Ends lineno xs v rest i')
          (run_lines-Ends (incr_int64 lineno) xs v rest i'))

  pub run-lines :
      (xs : List A) (w : W)
      → All P xs
      → I w
      → (l : List A) × (run clause sends offset rows true true xs w ≡ ok (lines l))
  unfolding run Ends
  run-lines xs w h i = let (l, e) = run_lines-Ends (pos 0) xs w h i in (l, rw e refl)

-- The call of Bool on the row that was read
unfoldable pub where_bool : Libraries → SqlAny → Row → State → Outcome (Bool × State)
unfolding eval
where_bool lib e row s = eval lib e (record s { row = row })

-- Nothing has been compared yet.
abbrev pub new_state : Row → State
new_state row = record { row = row; compare = λ i. none }
