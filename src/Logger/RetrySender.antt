-- ===== src/Logger/RetrySender.antt =====
-- tracer/logger/retrysender.go: a sender whose operations are tried again. The sender under it is a
-- state with operations that may fail.
pub mod Attempts
pub mod Resends
use goapptrace.Base.{ℕ, zero, suc, Option, none, some, Outcome, ok, panic, ◌>>=◌}
use goapptrace.Base.Int.{ℤ, pos, negsuc}

pub record RetrySender : Type 0 where
  pub max_retries : ℤ
  pub retry_interval : ℤ

abbrev pub default_max_retry : ℕ
default_max_retry = 50

abbrev pub default_retry_interval : ℕ
default_retry_interval = 1000000000

-- A negative number panics, and 0 is the default.
abbrev pub or_default : ℕ → ℤ → Outcome ℕ
or_default d (negsuc n) = panic
or_default d (pos zero) = ok d
or_default d (pos (suc n)) = ok (suc n)

unfoldable pub max_retry : RetrySender → Outcome ℕ
max_retry s = or_default default_max_retry s.max_retries

-- The interval in nanoseconds, which it gives back: it does not wait.
unfoldable pub sleep : RetrySender → Outcome ℕ
sleep s = or_default default_retry_interval s.retry_interval

module _ {S : Type 0} {E : Type 0} (rs : RetrySender) where
  -- What is done with the result of an attempt: `again` where it failed.
  abbrev pub unless_done : Outcome (S × Option E) → S × Option E → Outcome (S × Option E)
  unless_done again (s, none) = ok (s, none)
  unless_done again (s, some e) = sleep rs >>= λ t. again

  -- The loop with `i` attempts left and the last error.
  unfoldable pub retry_loop : ℕ → (S → S × Option E) → Option E → S → Outcome (S × Option E)
  retry_loop zero fn err s = ok (s, err)
  retry_loop (suc i) fn err s = unless_done (retry_loop i fn (fn s).1 (fn s).0) (fn s)

  unfoldable pub retry : (S → S × Option E) → S → Outcome (S × Option E)
  unfolding retry_loop
  retry fn s = max_retry rs >>= λ n. retry_loop n fn none s

  -- An error of the reopening panics; that of the closing is logged.
  abbrev pub reopened : (S → Outcome (S × Option E)) → S × Option E → Outcome (S × Option E)
  reopened again (s, none) = sleep rs >>= λ t. again s
  reopened again (s, some e) = panic

  abbrev pub unless_sent :
      (S → S × Option E)
      → (S → S × Option E)
      → (S → Outcome (S × Option E))
      → S × Option E
      → Outcome (S × Option E)
  unless_sent close open_ again (s, none) = ok (s, none)
  unless_sent close open_ again (s, some e) =
      retry close s >>= λ c. retry open_ c.0 >>= λ o. reopened again o

  unfoldable pub send_loop :
      ℕ → (close reopen send : S → S × Option E) → Option E → S → Outcome (S × Option E)
  send_loop zero close reopen send err s = ok (s, err)
  send_loop (suc i) close reopen send err s =
      unless_sent close reopen (send_loop i close reopen send (send s).1) (send s)

  unfoldable pub retry_send : (close reopen send : S → S × Option E) → S → Outcome (S × Option E)
  unfolding send_loop
  retry_send close reopen send s = max_retry rs >>= λ n. send_loop n close reopen send none s
