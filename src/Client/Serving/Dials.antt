-- ===== src/Client/Serving/Dials.antt =====
-- The dials of Client.Serve and the times between them.
use goapptrace.Base.{
  ℕ, zero, suc, ◌+◌, ◌*◌, ◌%◌, ◌^◌, ◌≤◌, ◌<◌, ◌≡◌, ◌≢◌, ◌⊎◌, inl, inr, refl, sym, ap, ◌∙◌, arith,
  true, false, List, [], ◌∷◌, Option, none, some, Option-cases, Bool-cases, subst, ◌==◌, ==_iff,
}
use goapptrace.Base.Int.{ℤ, pos, negsuc, to_uint64, to_int64}
use goapptrace.Client.Serving.{
  Dialing, init, dial_addr, may_retry, double, retries_of, Served, served, serve_loop, serve,
  dialed, after_sleep,
}

-- 10 ms, doubled `i` times on an int64.
abbrev pub wait_at : ℕ → ℤ
wait_at i = to_int64 (10000000 * 2 ^ i % 2 ^ 64)

-- The `k` waits from the i-th on.
abbrev pub waits : ℕ → ℕ → List ℤ
waits zero i = []
waits (suc k) i = wait_at i ∷ waits k (i + 1)

to_uint64-to_int64 : (u : ℕ) → u < 2 ^ 64 → to_uint64 (to_int64 u) ≡ u
to_uint64-to_int64 u h = ground arith

double-wait_at : (i : ℕ) → double (wait_at i) ≡ wait_at (i + 1)
double-wait_at i =
    let twice : 2 ^ suc i ≡ 2 ^ i * 2 = omega arith in
    let next : i + 1 ≡ suc i = omega arith in
    let n : ℕ = 10000000 * 2 ^ i in
    let reduced : n % 2 ^ 64 * 2 % 2 ^ 64 ≡ 10000000 * 2 ^ (suc i) % 2 ^ 64 = omega arith in
    ap (λ u. to_int64 (u * 2 % 2 ^ 64)) (to_uint64-to_int64 (n % 2 ^ 64) (omega arith))
    ∙ ap to_int64 reduced
    ∙ ap wait_at (sym next)

may_retry-below : (i : ℕ) (m : ℤ) → i < retries_of m → may_retry i m ≡ true
may_retry-below i (pos n) h = ground arith
may_retry-below i (negsuc n) h = ground arith

no_retry : (m : ℤ) → may_retry (retries_of m) m ≡ false
no_retry (pos n) = ground arith
no_retry (negsuc n) = refl

module _ {E : Type 0} (dial : List ℕ → ℕ → Option E) (a : List ℕ) (m : ℤ) where
  -- The k-th dial is the last one: those before it fail, and it succeeds or no retry is left.
  abbrev pub IsLastDial : ℕ → Type 0
  IsLastDial k =
      (k ≤ retries_of m)
      × ((i : ℕ) → i < k → dial a i ≢ none)
      × ((dial a k ≡ none) ⊎ (k ≡ retries_of m))

  fails_before :
      (r : ℕ)
      → ((i : ℕ) → i < r → dial a i ≢ none)
      → dial a r ≢ none
      → (i : ℕ) → i < r + 1
      → dial a i ≢ none
  fails_before r before here i h = elim (Bool-cases (i == r)) [
    | inl e ↦ subst (λ j. dial a j ≢ none) (sym ((==_iff i r).0 e)) here
    | inr e ↦ before i (ground arith)
  ]

  dialed_last :
      (w : ℤ) (again : Option (Served E)) (o : Option E)
      → dialed dial false w again o ≡ some (served o [])
  dialed_last w again none = refl
  dialed_last w again (some d) = refl

  retried :
      (fuel r : ℕ) (d : E)
      → dial a r ≡ some d
      → may_retry r m ≡ true
      → serve_loop dial (suc fuel) a m r (wait_at r)
        ≡ after_sleep dial (wait_at r) (serve_loop dial fuel a m (r + 1) (wait_at (r + 1)))
  unfolding serve_loop
  retried fuel r d refused goes_on =
      rw (refused, goes_on)
        (ap (λ t. after_sleep dial (wait_at r) (serve_loop dial fuel a m (r + 1) t))
          (double-wait_at r))

  -- What the loop does from the r-th dial on, with `left` retries left.
  abbrev Ends : ℕ → ℕ → Type 0
  Ends left r =
      (n k : ℕ) × (n ≡ r + k)
      × IsLastDial n
      × (serve_loop dial (suc left) a m r (wait_at r) ≡ some (served (dial a n) (waits k r)))

  retried-Ends :
      (left r : ℕ) (d : E)
      → dial a r ≡ some d
      → r + suc left ≡ retries_of m
      → Ends left (r + 1)
      → Ends (suc left) r
  retried-Ends left r d refused e (n, k, at_n, last, rest) =
      let goes_on : may_retry r m ≡ true = may_retry-below r m (omega arith) in
      let step = retried (suc left) r d refused goes_on in
      (n, suc k, omega arith, last, step ∙ ap (after_sleep dial (wait_at r)) rest)

  serve_loop-Ends :
      (left r : ℕ) → r + left ≡ retries_of m → ((i : ℕ) → i < r → dial a i ≢ none) → Ends left r
  unfolding serve_loop
  serve_loop-Ends zero r e before =
      let none_left : r ≡ retries_of m = omega arith in
      let stops : may_retry r m ≡ false = rw none_left (no_retry m) in
      (
        r,
        0,
        omega arith,
        (omega arith, before, inr none_left),
        rw stops (
            dialed_last (wait_at r) (serve_loop dial 0 a m (r + 1) (double (wait_at r)))
              (dial a r)),
      )
  serve_loop-Ends (suc left) r e before = elim (Option-cases (dial a r)) [
    | inl connected ↦ (r, 0, omega arith, (omega arith, before, inl connected), rw connected refl)
    | inr (d, refused) ↦
        let here : dial a r ≢ none = λ h. cc in
        retried-Ends left r d refused e
          (serve_loop-Ends left (r + 1) (omega arith) (fails_before r before here))
  ]

-- For an address that Serve takes, and any results of the dials: Serve returns. There is a dial that is
-- the last one, because it succeeds or because it is the last retry of MaxRetries as Init leaves it
-- (no retry for a negative number), while all dials before it fail; Serve returns its result, nil
-- or the error, and before each retry it has slept 10 ms doubled once for each retry before, as an
-- int64.
pub serve-IsLastDial :
    {E : Type 0} (dial : List ℕ → ℕ → Option E) (c : Dialing) (a : List ℕ)
    → dial_addr (init c).addr ≡ some a
    → (k : ℕ) × IsLastDial dial a (init c).max_retries k
      × (serve dial c ≡ some (served (dial a k) (waits k 0)))
unfolding serve
serve-IsLastDial dial c a h =
    let m : ℤ = (init c).max_retries in
    let (n, k, at_n, last, e) =
      serve_loop-Ends dial a m (retries_of m) 0 (omega arith) (λ i h. omega arith) in
    (n, last, rw (h, e) (ap (λ j. some (served (dial a n) (waits j 0))) (omega arith)))
