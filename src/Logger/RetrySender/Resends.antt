-- ===== src/Logger/RetrySender/Resends.antt =====
-- When retrySend sends again.
use goapptrace.Base.{
  ℕ, zero, suc, ◌≡◌, inl, inr, refl, sym, ap, subst, ◌∙◌, Option, none, some, Outcome, ok,
  Outcome-cases, ok-injective,
}
use goapptrace.Logger.RetrySender.{
  RetrySender, retry, reopened, unless_sent, max_retry, send_loop, retry_send,
}
use goapptrace.Logger.RetrySender.Attempts.{IsConfig, retry-outcome}

module _ {S E : Type 0} (rs : RetrySender) (c : IsConfig rs) (close reopen : S → S × Option E)
    (IsReady : S → Type 0)
    (reopen-IsReady : (s : S) → (reopen s).1 ≡ none → IsReady (reopen s).0) where
  retry-IsReady : (s t : S) → retry rs reopen s ≡ ok (t, none) → IsReady t
  retry-IsReady s t e = elim (retry-outcome rs c reopen s) [
    | inl (k, u, k<n, failed, done, r) ↦
        subst IsReady (ap (λ p. p.0) (ok-injective (sym r ∙ e))) (reopen-IsReady u done)
    | inr (u, x, failed, r) ↦
        let bad : ◌≡◌ {A = Option E} (some x) none = ap (λ p. p.1) (ok-injective (sym r ∙ e)) in cc
  ]

  module _ (again again' : S → Outcome (S × Option E))
      (agrees : (t : S) → IsReady t → again t ≡ again' t) where
    reopened-agrees :
        (s : S) (r : S × Option E)
        → retry rs reopen s ≡ ok r
        → reopened rs again r ≡ reopened rs again' r
    reopened-agrees s (t, none) e = rw (agrees t (retry-IsReady s t e))
    reopened-agrees s (t, some x) e = refl

    unless_sent-agrees :
        (r : S × Option E)
        → unless_sent rs close reopen again r ≡ unless_sent rs close reopen again' r
    unless_sent-agrees (s, none) = refl
    unless_sent-agrees (s, some x) = elim (Outcome-cases (retry rs close s)) [
      | inl e ↦ rw e
      | inr (closed, e) ↦ rw e (elim (Outcome-cases (retry rs reopen closed.0)) [
        | inl f ↦ rw f
        | inr (r, f) ↦ rw f (reopened-agrees closed.0 r f)
      ])
    ]

  module _ (send send' : S → S × Option E) (agrees : (s : S) → IsReady s → send s ≡ send' s) where
    send_loop-agrees :
        (n : ℕ) (err : Option E) (s : S)
        → IsReady s
        → send_loop rs n close reopen send err s ≡ send_loop rs n close reopen send' err s
    unfolding send_loop
    send_loop-agrees zero err s h = refl
    send_loop-agrees (suc n) err s h = rw (agrees s h) (
        unless_sent-agrees (send_loop rs n close reopen send (send' s).1)
          (send_loop rs n close reopen send' (send' s).1) (λ t. send_loop-agrees n (send' s).1 t)
          (send' s))

    -- A sender that is ready is sent to, and after a failure one that is sent to again has been
    -- reopened with success: what a send does to a sender that is not ready has no part in what
    -- retrySend does. The sender is ready at first, and reopening it without an error makes it ready.
    pub retry_send-agrees :
        (s : S) → IsReady s → retry_send rs close reopen send s ≡ retry_send rs close reopen send' s
    unfolding retry_send
    retry_send-agrees s h = elim (Outcome-cases (max_retry rs)) [
      | inl e ↦ rw e
      | inr (n, e) ↦ rw e (send_loop-agrees n none s h)
    ]
