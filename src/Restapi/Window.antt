-- ===== src/Restapi/Window.antt =====
-- Which of the rows that fulfil the WHERE clause are sent.
use goapptrace.Base.{
  ℕ, suc, max, ◌+◌, ◌-◌, ◌≤◌, ◌<◌, ◌≡◌, refl, sym, ap, ◌∙◌, arith, Bool, true, false, not, ◌&&◌,
  List, [], ◌∷◌, Outcome, ok, panic, panic_ne_ok, ◌%◌, ◌^◌, ltb, leb, ◌==◌, ==_iff, ◌⊎◌, Bool-cases,
  inl, inr, if◌then◌else◌, take, take-nil, drop, drop-nil, length, ok-injective, >>=-eq-ok,
}
use goapptrace.Base.Int.{pos, ltb_ℤ, leb_ℤ, incr_int64-pos}
use goapptrace.Restapi.{add_int64, sent_then, counted_line, run_lines, run, lines}

-- The rows that fulfil the clause.
abbrev pub filter : {A : Type 0} → (A → Bool) → List A → List A
filter p [] = []
filter p (a ∷ xs) = if p a then a ∷ filter p xs else filter p xs

-- From the offset-th of them, or from the first; without a limit all of them, or those before the
-- (offset + rows)-th.
abbrev pub window : {A : Type 0} → ℕ → ℕ → List A → List A
window offset rows xs =
    let rest = drop (offset - 1) xs in
    if rows == 0 then rest else take (if offset == 0 then rows - 1 else rows) rest

-- The same with `lineno` lines counted before.
abbrev window_from : {A : Type 0} → ℕ → ℕ → ℕ → List A → List A
window_from offset rows lineno xs =
    let rest = drop (offset - 1 - lineno) xs in
    if rows == 0 then rest else take (offset + rows - 1 - max (offset - 1) lineno) rest

module _ {A : Type 0} (offset rows : ℕ) where
  -- One more line, which is before the offset, behind the limit, or is sent.
  before :
      (lineno : ℕ) (a : A) (xs : List A)
      → lineno + 1 < offset
      → window_from offset rows lineno (a ∷ xs) ≡ window_from offset rows (lineno + 1) xs
  before lineno a xs h =
      let one_more : offset - 1 - lineno ≡ suc (offset - 1 - (lineno + 1)) = omega arith in
      let same : max (offset - 1) lineno ≡ max (offset - 1) (lineno + 1) = omega arith in
      rw (one_more, same) refl

  behind :
      (lineno : ℕ) (xs : List A)
      → 0 < rows
      → offset + rows ≤ lineno + 1
      → window_from offset rows lineno xs ≡ []
  behind lineno xs h k =
      let some_rows : (rows == 0) ≡ false = ground arith in
      let nothing : offset + rows - 1 - max (offset - 1) lineno ≡ 0 = omega arith in
      rw (some_rows, nothing) refl

  inside_all :
      (lineno : ℕ) (a : A) (xs : List A)
      → offset ≤ lineno + 1
      → rows ≡ 0
      → window_from offset rows lineno (a ∷ xs) ≡ a ∷ window_from offset rows (lineno + 1) xs
  inside_all lineno a xs h e =
      let all : (rows == 0) ≡ true = (==_iff rows 0).1 e in
      let none_here : offset - 1 - lineno ≡ 0 = omega arith in
      let none_there : offset - 1 - (lineno + 1) ≡ 0 = omega arith in
      rw (all, none_here, none_there) refl

  inside :
      (lineno : ℕ) (a : A) (xs : List A)
      → offset ≤ lineno + 1
      → (rows ≡ 0) ⊎ (lineno + 1 < offset + rows)
      → window_from offset rows lineno (a ∷ xs) ≡ a ∷ window_from offset rows (lineno + 1) xs
  inside lineno a xs h (inl e) = inside_all lineno a xs h e
  inside lineno a xs h (inr k) = elim (Bool-cases (rows == 0)) [
    | inl e ↦ inside_all lineno a xs h ((==_iff rows 0).0 e)
    | inr e ↦
        let none_here : offset - 1 - lineno ≡ 0 = omega arith in
        let none_there : offset - 1 - (lineno + 1) ≡ 0 = omega arith in
        let one_less : offset + rows - 1 - max (offset - 1) lineno
            ≡ suc (offset + rows - 1 - max (offset - 1) (lineno + 1)) =
          omega arith in
        rw (e, none_here, none_there, one_less) refl
  ]

add_int64-pos : (m n : ℕ) → m + n < 2 ^ 63 → add_int64 (pos m) (pos n) ≡ pos (m + n)
add_int64-pos m n h =
    let sum : (m % 2 ^ 64 + n % 2 ^ 64) % 2 ^ 64 ≡ m + n = omega arith in
    let small : ltb (m + n) (2 ^ 63) ≡ true = ground arith in rw (sum, small) refl

-- The sum of two int64 that are not negative is negative where it does not fit.
add_int64-lt :
    (m n l : ℕ)
    → m < 2 ^ 63
    → n < 2 ^ 63
    → 2 ^ 63 ≤ m + n
    → leb_ℤ (add_int64 (pos m) (pos n)) (pos l) ≡ true
add_int64-lt m n l hm hn h =
    let sum : (m % 2 ^ 64 + n % 2 ^ 64) % 2 ^ 64 ≡ m + n = omega arith in
    let large : ltb (m + n) (2 ^ 63) ≡ false = ground arith in rw (sum, large) (ground arith)

if-same : {A : Type 0} {a : A} (b : Bool) → (if b then a else a) ≡ a
if-same true = refl
if-same false = refl

-- The tests of the loop on numbers that are not negative.
early_lem : (l m : ℕ) → ltb_ℤ (pos l) (pos m) ≡ ltb l m
early_lem l m = ground arith

over_lem :
    (l m n : ℕ)
    → m + n < 2 ^ 63
    → (ltb_ℤ (pos 0) (pos n) && leb_ℤ (add_int64 (pos m) (pos n)) (pos l))
      ≡ (ltb 0 n && leb (m + n) l)
over_lem l m n h = rw (add_int64-pos m n h) (ground arith)

module _ {A W : Type 0} (p : A → Bool) (offset rows : ℕ) where
  pure_clause : A → W → Outcome (Bool × W)
  pure_clause a w = ok (p a, w)

  succeeds : A → W → Outcome Bool
  succeeds a w = ok true

  abbrev counted : ℕ → List A → W → Outcome (List A)
  counted lineno xs w =
      run_lines pure_clause succeeds (pos offset) (pos rows) (pos (lineno + 1)) xs w

  module _ (fits : offset + rows < 2 ^ 63) where
    -- The rest of the loop's body, where the clause holds.
    line_sent :
        (lineno : ℕ) (a : A) (xs : List A) (w : W)
        → counted lineno xs w ≡ ok (window_from offset rows (lineno + 1) (filter p xs))
        → counted_line pure_clause succeeds
            (pos offset)
            (pos rows)
            (pos (lineno + 1))
            (ok true)
            a
            (counted lineno xs w)
          ≡ ok (window_from offset rows lineno (a ∷ filter p xs))
    line_sent lineno a xs w ih =
        rw (early_lem (lineno + 1) offset, over_lem (lineno + 1) offset rows fits)
          (elim (Bool-cases (ltb (lineno + 1) offset)) [
            | inl early ↦
                rw early
                  (ih ∙ ap ok (sym (before offset rows lineno a (filter p xs) (ground arith))))
            | inr late ↦ elim (Bool-cases (ltb 0 rows && leb (offset + rows) (lineno + 1))) [
              | inl over ↦
                  rw (late, over)
                    (ap ok (
                      sym (
                        behind offset rows lineno (a ∷ filter p xs) (ground arith) (ground arith))))
              | inr within ↦
                  rw (late, within, ih)
                    (ap ok (
                      sym
                        (inside offset rows lineno a (filter p xs) (ground arith) (ground arith))))
            ]
          ])

    run_lines-window_from :
        (lineno : ℕ) (xs : List A) (w : W)
        → lineno + length xs < 2 ^ 63
        → run_lines pure_clause succeeds (pos offset) (pos rows) (pos lineno) xs w
          ≡ ok (window_from offset rows lineno (filter p xs))
    unfolding run_lines pure_clause succeeds
    run_lines-window_from lineno [] w h = elim (Bool-cases (rows == 0)) [
      | inl e ↦ rw (e, drop-nil {A = A} (offset - 1 - lineno)) refl
      | inr e ↦
          rw
            (
              e,
              drop-nil {A = A} (offset - 1 - lineno),
              take-nil {A = A} (offset + rows - 1 - max (offset - 1) lineno),
            )
            refl
    ]
    run_lines-window_from lineno (a ∷ xs) w h = elim (Bool-cases (p a)) [
      | inr rejected ↦ rw rejected (run_lines-window_from lineno xs w (omega arith))
      | inl accepted ↦
          rw (accepted, incr_int64-pos lineno (omega arith))
            (line_sent lineno a xs w (run_lines-window_from (lineno + 1) xs w (omega arith)))
    ]

  -- Where the sum wraps, the first line that is not before the offset is the end.
  run_lines-overflow :
      (lineno : ℕ) (xs : List A) (w : W)
      → offset < 2 ^ 63
      → rows < 2 ^ 63
      → 2 ^ 63 ≤ offset + rows
      → lineno + length xs < 2 ^ 63
      → run_lines pure_clause succeeds (pos offset) (pos rows) (pos lineno) xs w ≡ ok []
  unfolding run_lines pure_clause succeeds
  run_lines-overflow lineno [] w ho hr over h = refl
  run_lines-overflow lineno (a ∷ xs) w ho hr over h = elim (Bool-cases (p a)) [
    | inr rejected ↦ rw rejected (run_lines-overflow lineno xs w ho hr over (omega arith))
    | inl accepted ↦
        let limited : ltb_ℤ (pos 0) (pos rows) ≡ true = ground arith in
        rw
          (
            accepted,
            incr_int64-pos lineno (omega arith),
            limited,
            add_int64-lt offset rows (lineno + 1) ho hr over,
            run_lines-overflow (lineno + 1) xs w ho hr over (omega arith),
          )
          (if-same (ltb_ℤ (pos (lineno + 1)) (pos offset)))
  ]

lines-injective : {A : Type 0} {l m : List A} → lines l ≡ lines m → l ≡ m
lines-injective h = cc

window_from-window :
    {A : Type 0} (offset rows : ℕ) (xs : List A)
    → window_from offset rows 0 xs ≡ window offset rows xs
window_from-window offset rows xs =
    let all : offset - 1 - 0 ≡ offset - 1 = omega arith in
    let count : offset + rows - 1 - max (offset - 1) 0 ≡ (if offset == 0 then rows - 1 else rows) =
      ground arith in
    rw (all, count) refl

-- Where the WHERE clause is the predicate `p`, every call of SetUpRow, WriteHeader and Send succeeds,
-- Offset and Rows are int64 that are not negative, and fewer than 2^63 rows are read: if the sum of
-- Offset and Rows fits an int64, Run sends of the rows that fulfil `p`, in their order, those from the
-- Offset-th on (all for 0), and if Rows is not 0, only the first Rows of these, and one less for an
-- Offset of 0; if the sum does not fit, it sends no row.
pub run-window :
    {A W : Type 0} (p : A → Bool) (offset rows : ℕ) (xs : List A) (w : W)
    → offset < 2 ^ 63
    → rows < 2 ^ 63
    → length xs < 2 ^ 63
    → run (λ a v. ok (p a, v)) (λ _ _. ok true) (pos offset) (pos rows) true true xs w
      ≡ ok (lines (if ltb (offset + rows) (2 ^ 63) then window offset rows (filter p xs) else []))
unfolding run pure_clause succeeds
run-window p offset rows xs w ho hr h = elim (Bool-cases (ltb (offset + rows) (2 ^ 63))) [
  | inl fits ↦
      rw (run_lines-window_from p offset rows (ground arith) 0 xs w (omega arith), fits)
        (ap (λ l. ok (lines l)) (window_from-window offset rows (filter p xs)))
  | inr over ↦
      rw (run_lines-overflow p offset rows 0 xs w ho hr (ground arith) (omega arith), over) refl
]

module _ {A W : Type 0} (clause : A → W → Outcome (Bool × W)) (sends : A → W → Outcome Bool)
    (offset rows : ℕ) (limited : 0 < rows) (fits : offset + rows < 2 ^ 63) where
  -- How many lines are left.
  abbrev left : ℕ → ℕ
  left lineno = offset + rows - 1 - max (offset - 1) lineno

  -- What follows the tests.
  sent_bound :
      (lineno : ℕ) (a : A) (sending : Outcome Bool) (counted : Outcome (List A)) (l : List A)
      → offset ≤ lineno + 1
      → lineno + 1 < offset + rows
      → ((m : List A) → counted ≡ ok m → length m ≤ left (lineno + 1))
      → sent_then clause sends (pos offset) (pos rows) sending a counted ≡ ok l
      → length l ≤ left lineno
  sent_bound lineno a panic counted l reached below hc e = absurd (panic_ne_ok e)
  sent_bound lineno a (ok false) counted l reached below hc e = rw (← ok-injective e) (omega arith)
  sent_bound lineno a (ok true) counted l reached below hc e =
      let (m, em, el) = >>=-eq-ok counted (λ m. ok (a ∷ m)) e in
      rw (← ok-injective el) (omega (arith, hc m em))

  -- What follows the call of Where.
  body_bound :
      (lineno : ℕ) (a : A) (b : Bool) (sending : Outcome Bool) (skipped counted : Outcome (List A))
      (l : List A)
      → ((m : List A) → skipped ≡ ok m → length m ≤ left lineno)
      → ((m : List A) → counted ≡ ok m → length m ≤ left (lineno + 1))
      → (if not b
          then skipped
          else counted_line clause sends
              (pos offset)
              (pos rows)
              (pos (lineno + 1))
              sending
              a
              counted)
        ≡ ok l
      → length l ≤ left lineno
  body_bound lineno a false sending skipped counted l hs hc e = hs l e
  body_bound lineno a true sending skipped counted l hs hc e =
      let e1 = rw (early_lem (lineno + 1) offset, over_lem (lineno + 1) offset rows fits) at e in
      elim (Bool-cases (ltb (lineno + 1) offset)) [
        | inl early ↦ omega (arith, hc l (rw early at e1))
        | inr late ↦ elim (Bool-cases (ltb 0 rows && leb (offset + rows) (lineno + 1))) [
          | inl over ↦ rw (← ok-injective (rw (late, over) at e1)) (omega arith)
          | inr within ↦
              sent_bound lineno a sending counted l (ground arith) (ground arith) hc
                (rw (late, within) at e1)
        ]
      ]

  run_lines_bound :
      (lineno : ℕ) (xs l : List A) (w : W)
      → lineno + length xs < 2 ^ 63
      → run_lines clause sends (pos offset) (pos rows) (pos lineno) xs w ≡ ok l
      → length l ≤ left lineno
  unfolding run_lines
  run_lines_bound lineno [] l w h e = rw (← ok-injective e) (omega arith)
  run_lines_bound lineno (a ∷ xs) l w h e =
      let (r, called, e') = >>=-eq-ok (clause a w) _ e in
      body_bound lineno a r.0 (sends a r.1) _ _ l
        (λ m. run_lines_bound lineno xs m r.1 (omega arith))
        (λ m. run_lines_bound (lineno + 1) xs m r.1 (omega arith))
        (rw (incr_int64-pos lineno (omega arith)) at e')

-- Whatever the WHERE clause and the calls of Send do: where Offset is not negative, Rows is positive,
-- their sum fits an int64, fewer than 2^63 rows are read and Run sends the lines `l`, these are at
-- most Rows lines, and fewer for an Offset of 0.
pub run_bounds :
    {A W : Type 0} (clause : A → W → Outcome (Bool × W)) (sends : A → W → Outcome Bool)
    (offset rows : ℕ) (xs l : List A) (w : W)
    → 0 < rows
    → offset + rows < 2 ^ 63
    → length xs < 2 ^ 63
    → run clause sends (pos offset) (pos rows) true true xs w ≡ ok (lines l)
    → (length l ≤ rows) × (offset ≡ 0 → length l < rows)
unfolding run
run_bounds clause sends offset rows xs l w limited fits h e =
    let (m, em, el) =
      >>=-eq-ok (run_lines clause sends (pos offset) (pos rows) (pos 0) xs w) (λ m. ok (lines m))
        e in
    let bound : length m ≤ left clause sends offset rows limited fits 0 =
      run_lines_bound clause sends offset rows limited fits 0 xs m w (omega arith) em in
    let same : m ≡ l = lines-injective (ok-injective el) in
    rw (← same) (omega arith, λ h. omega arith)
