-- ===== src/Logger/RetrySender/Attempts.antt =====
-- How many attempts retry makes.
use goapptrace.Base.{
  ℕ, zero, suc, ◌<◌, ◌≡◌, ◌⊎◌, inl, inr, refl, ap, ◌∙◌, Option-cases, arith, Option, none, some,
  Outcome, ok,
}
use goapptrace.Base.Int.{pos}
use goapptrace.Logger.RetrySender.{
  RetrySender, default_max_retry, default_retry_interval, or_default, max_retry, sleep, unless_done,
  retry_loop, retry,
}

-- The numbers of the configuration are not negative.
pub record IsConfig (rs : RetrySender) : Type 0 where
  pub retries : ℕ
  pub interval : ℕ
  pub max_retries : rs.max_retries ≡ pos retries
  pub retry_interval : rs.retry_interval ≡ pos interval

-- The number that is used.
abbrev pub positive_or : ℕ → ℕ → ℕ
positive_or d zero = d
positive_or d (suc n) = suc n

or_default-pos : (d n : ℕ) → or_default d (pos n) ≡ ok (positive_or d n)
or_default-pos d zero = refl
or_default-pos d (suc n) = refl

-- The attempts that are made: 50 where the configuration has 0.
abbrev pub attempts : ℕ → ℕ
attempts n = positive_or default_max_retry n

attempts-pos : (n : ℕ) → 0 < attempts n
attempts-pos zero = omega arith
attempts-pos (suc n) = omega arith

pub max_retry-IsConfig :
    (rs : RetrySender) (c : IsConfig rs) → max_retry rs ≡ ok (attempts c.retries)
unfolding max_retry
max_retry-IsConfig rs c =
    ap (or_default default_max_retry) c.max_retries ∙ or_default-pos default_max_retry c.retries

pub sleep-IsConfig : (rs : RetrySender) → IsConfig rs → (t : ℕ) × (sleep rs ≡ ok t)
unfolding sleep
sleep-IsConfig rs c = (
  positive_or default_retry_interval c.interval,
  ap (or_default default_retry_interval) c.retry_interval
      ∙ or_default-pos default_retry_interval c.interval,
)

module _ {S E : Type 0} (rs : RetrySender) (c : IsConfig rs) (fn : S → S × Option E) where
  -- `k` calls from `s` fail, one after the other, and leave `t`.
  abbrev pub Fails : ℕ → S → S → Type 0
  Fails zero s t = s ≡ t
  Fails (suc k) s t = (e : E) × ((fn s).1 ≡ some e) × Fails k (fn s).0 t

  -- Of at most `n` attempts, one succeeds after `k` failures.
  abbrev pub Succeeds : ℕ → S → Outcome (S × Option E) → Type 0
  Succeeds n s r =
      (k : ℕ) × (t : S) × (k < n) × Fails k s t × ((fn t).1 ≡ none) × (r ≡ ok ((fn t).0, none))

  abbrev pub GivesUp : ℕ → S → Outcome (S × Option E) → Type 0
  GivesUp n s r = (t : S) × (e : E) × Fails n s t × (r ≡ ok (t, some e))

  unless_done-none :
      (again : Outcome (S × Option E)) (r : S × Option E)
      → r.1 ≡ none
      → unless_done rs again r ≡ ok (r.0, none)
  unless_done-none again (s, none) e = refl
  unless_done-none again (s, some x) e = cc

  unless_done-some :
      (again : Outcome (S × Option E)) (r : S × Option E) (x : E)
      → r.1 ≡ some x
      → unless_done rs again r ≡ again
  unless_done-some again (s, none) x e = cc
  unless_done-some again (s, some y) x e = let (t, slept) = sleep-IsConfig rs c in rw slept

  -- Whatever the loop with `n` attempts left does after an error, one attempt more.
  one_attempt-outcome :
      (n : ℕ)
      → ((x : E) (t : S) → let r = retry_loop rs n fn (some x) t in Succeeds n t r ⊎ GivesUp n t r)
      → (o : Option E) (s : S)
      → let r = retry_loop rs (suc n) fn o s in Succeeds (suc n) s r ⊎ GivesUp (suc n) s r
  unfolding retry_loop
  one_attempt-outcome n h o s =
      let again = retry_loop rs n fn (fn s).1 (fn s).0 in
      elim (Option-cases (fn s).1) [
        | inl e ↦ inl (0, s, omega arith, refl, e, unless_done-none again (fn s) e)
        | inr (x, e) ↦
            let same : unless_done rs again (fn s) ≡ retry_loop rs n fn (some x) (fn s).0 =
              unless_done-some again (fn s) x e ∙ ap (λ o. retry_loop rs n fn o (fn s).0) e in
            elim (h x (fn s).0) [
              | inl (k, t, k<n, failed, e', r) ↦
                  inl (suc k, t, omega arith, (x, e, failed), e', same ∙ r)
              | inr (t, y, failed, r) ↦ inr (t, y, (x, e, failed), same ∙ r)
            ]
      ]

  retry_loop-outcome :
      (n : ℕ) (x : E) (s : S)
      → let r = retry_loop rs n fn (some x) s in Succeeds n s r ⊎ GivesUp n s r
  unfolding retry_loop
  retry_loop-outcome zero x s = inr (s, x, refl, refl)
  retry_loop-outcome (suc n) x s = one_attempt-outcome n (retry_loop-outcome n) (some x) s

  first_loop-outcome :
      (n : ℕ) (s : S) → 0 < n → let r = retry_loop rs n fn none s in Succeeds n s r ⊎ GivesUp n s r
  first_loop-outcome zero s h = absurd (omega arith)
  first_loop-outcome (suc n) s h = one_attempt-outcome n (retry_loop-outcome n) none s

  -- Where neither number of the configuration is negative, retry returns: it calls the operation
  -- until that succeeds, at most as often as configured (50 times for 0), returns no error
  -- if a call succeeds and the last call's error if none does.
  pub retry-outcome :
      (s : S)
      → let r = retry rs fn s in
        Succeeds (attempts c.retries) s r ⊎ GivesUp (attempts c.retries) s r
  unfolding retry
  retry-outcome s =
      rw (max_retry-IsConfig rs c)
        (first_loop-outcome (attempts c.retries) s (attempts-pos c.retries))
