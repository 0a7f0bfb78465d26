-- ===== src/Server/Session.antt =====
-- The order of what a connection does: negotiation, then deliveries.
use goapptrace.Base.{
  ◌≡◌, refl, sym, ap, ◌∙◌, arith, Bool, true, false, ◌||◌, List, [], ◌∷◌, ◌++◌, Bool-cases, inl,
  inr, if◌then◌else◌,
}
use goapptrace.Protocol.{Packet, ClientHello, ping, client_hello, symbol, raw_func_log}
use goapptrace.Server.{
  is_compatible_version, Error, Effect, connected, disconnected, error, logged, symbols, new_log,
  send, stop, ServerConn, Event, accept, sent, closed, recv, on_closed, fail, not_compatible,
  send_failed, unexpected_hello, unexpected_packet, greet, negotiate, receive, on_event, run,
}

-- Connected is called at most once, for a hello whose version is compatible, and Symbols and
-- RawFuncLog are called after it alone.
abbrev pub InOrder : List Effect → Bool → Type 0
InOrder [] n = Unit {0}
InOrder (connected p ∷ es) n =
    (n ≡ false) × (is_compatible_version p.protocol_version ≡ true) × InOrder es true
InOrder (symbols d ∷ es) n = (n ≡ true) × InOrder es n
InOrder (new_log r ∷ es) n = (n ≡ true) × InOrder es n
InOrder (disconnected ∷ es) n = InOrder es n
InOrder (error e ∷ es) n = InOrder es n
InOrder (logged e ∷ es) n = InOrder es n
InOrder (send p ∷ es) n = InOrder es n
InOrder (stop ∷ es) n = InOrder es n

if-InOrder :
    (set : Bool) (xs es : List Effect) (n : Bool)
    → InOrder (xs ++ es) n
    → InOrder es n
    → InOrder ((if set then xs else []) ++ es) n
if-InOrder true xs es n h k = h
if-InOrder false xs es n h k = k

report-InOrder :
    (set : Bool) (e : Error) (es : List Effect) (n : Bool)
    → InOrder es n
    → InOrder ((if set then error e else logged e) ∷ es) n
report-InOrder true e es n h = h
report-InOrder false e es n h = h

on_closed-InOrder :
    (s : ServerConn) (es : List Effect) (n : Bool) → InOrder es n → InOrder (on_closed s ++ es) n
unfolding on_closed
on_closed-InOrder s es n h = if-InOrder s.handler.has_disconnected (disconnected ∷ []) es n h h

fail-InOrder :
    (e : Error) (s : ServerConn) (es : List Effect) (n : Bool)
    → InOrder es n
    → InOrder (fail e s ++ es) n
unfolding fail
fail-InOrder e s es n h =
    let closing = if-InOrder s.mocked (on_closed s) es n (on_closed-InOrder s es n h) h in
    report-InOrder s.handler.has_error e _ n closing

greet-InOrder :
    (p : ClientHello) (sends : Bool) (s : ServerConn) (es : List Effect)
    → s.handler.has_connected ≡ true
    → s.is_negotiated ≡ false
    → InOrder es (greet p sends s).0.is_negotiated
    → InOrder ((greet p sends s).1 ++ es) s.is_negotiated
unfolding greet
greet-InOrder p sends s es c n = elim (Bool-cases (is_compatible_version p.protocol_version)) [
  | inl e ↦ elim (Bool-cases (s.mocked || sends)) [
    | inl f ↦ rw (e, f, c) (λ h. (n, e, h))
    | inr f ↦ rw (e, f) (λ h. fail-InOrder send_failed s es _ h)
  ]
  | inr e ↦ rw e (λ h. fail-InOrder not_compatible s es _ h)
]

negotiate-InOrder :
    (p : Packet) (sends : Bool) (s : ServerConn) (es : List Effect)
    → s.handler.has_connected ≡ true
    → s.is_negotiated ≡ false
    → InOrder es (negotiate p sends s).0.is_negotiated
    → InOrder ((negotiate p sends s).1 ++ es) s.is_negotiated
unfolding negotiate
negotiate-InOrder (client_hello p) sends s es c n = greet-InOrder p sends s es c n
negotiate-InOrder _ sends s es c n = fail-InOrder unexpected_hello s es _

receive-InOrder :
    (p : Packet) (s : ServerConn) (es : List Effect)
    → s.is_negotiated ≡ true
    → InOrder es s.is_negotiated
    → InOrder (receive p s ++ es) s.is_negotiated
unfolding receive
receive-InOrder ping s es n h = h
receive-InOrder (symbol d) s es n h =
    if-InOrder s.handler.has_symbols (symbols d ∷ []) es _ (n, h) h
receive-InOrder (raw_func_log r) s es n h =
    if-InOrder s.handler.has_raw_func_log (new_log r ∷ []) es _ (n, h) h
receive-InOrder _ s es n h = fail-InOrder unexpected_packet s es _ h

recv-InOrder :
    (n : Bool) (p : Packet) (sends : Bool) (s : ServerConn) (es : List Effect)
    → s.handler.has_connected ≡ true
    → s.is_negotiated ≡ n
    → InOrder es (if n then (s, receive p s) else negotiate p sends s).0.is_negotiated
    → InOrder ((if n then (s, receive p s) else negotiate p sends s).1 ++ es) s.is_negotiated
recv-InOrder true p sends s es c n h = receive-InOrder p s es n h
recv-InOrder false p sends s es c n h = negotiate-InOrder p sends s es c n h

on_event-InOrder :
    (e : Event) (s : ServerConn) (es : List Effect)
    → s.handler.has_connected ≡ true
    → InOrder es (on_event e s).0.is_negotiated
    → InOrder ((on_event e s).1 ++ es) s.is_negotiated
unfolding on_event
on_event-InOrder accept s es c h = h
on_event-InOrder sent s es c h = h
on_event-InOrder closed s es c h = on_closed-InOrder s es _ h
on_event-InOrder (recv p sends) s es c h = recv-InOrder s.is_negotiated p sends s es c refl h

-- OnEvent keeps the handler.
on_event-handler : (e : Event) (s : ServerConn) → (on_event e s).0.handler ≡ s.handler
unfolding on_event negotiate greet
on_event-handler e s = ground arith

-- Whatever the events of a connection are, and whichever of its sends succeed, a handler that has a
-- Connected callback sees it called at most once, for a hello of a compatible version, and sees
-- Symbols and RawFuncLog called only after that. The connection may be negotiated before.
pub run-InOrder :
    (es : List Event) (s : ServerConn)
    → s.handler.has_connected ≡ true
    → InOrder (run es s).1 s.is_negotiated
unfolding run
run-InOrder [] s c = tt
run-InOrder (e ∷ es) s c =
    let r = on_event e s in
    on_event-InOrder e s (run es r.0).1 c
      (run-InOrder es r.0 (ap (λ h. h.has_connected) (on_event-handler e s) ∙ c))

-- The symbols and logs that a list of effects hands to the handler.
unfoldable pub deliveries : List Effect → List Packet
deliveries [] = []
deliveries (symbols d ∷ es) = symbol d ∷ deliveries es
deliveries (new_log r ∷ es) = raw_func_log r ∷ deliveries es
deliveries (_ ∷ es) = deliveries es

-- The symbols and logs that events bring.
unfoldable pub arrivals : List Event → List Packet
arrivals [] = []
arrivals (recv (symbol d) sends ∷ es) = symbol d ∷ arrivals es
arrivals (recv (raw_func_log r) sends ∷ es) = raw_func_log r ∷ arrivals es
arrivals (_ ∷ es) = arrivals es

deliveries-on_closed :
    (s : ServerConn) (es : List Effect) → deliveries (on_closed s ++ es) ≡ deliveries es
unfolding deliveries on_closed
deliveries-on_closed s es = ground arith

deliveries-fail :
    (e : Error) (s : ServerConn) (es : List Effect) → deliveries (fail e s ++ es) ≡ deliveries es
unfolding deliveries fail on_closed
deliveries-fail e s es = ground arith

module _ (s : ServerConn) (y : s.handler.has_symbols ≡ true)
    (f : s.handler.has_raw_func_log ≡ true) where
  deliveries-receive :
      (p : Packet) (sends : Bool) (rest : List Effect)
      → deliveries (receive p s ++ rest) ≡ arrivals (recv p sends ∷ []) ++ deliveries rest
  unfolding receive deliveries arrivals
  deliveries-receive ping sends rest = refl
  deliveries-receive (symbol d) sends rest = rw y
  deliveries-receive (raw_func_log r) sends rest = rw f
  deliveries-receive _ sends rest = deliveries-fail unexpected_packet s rest

  deliveries-on_event :
      (e : Event) (rest : List Effect)
      → s.is_negotiated ≡ true
      → ((on_event e s).0 ≡ s)
        × (deliveries ((on_event e s).1 ++ rest) ≡ arrivals (e ∷ []) ++ deliveries rest)
  unfolding on_event
  deliveries-on_event accept rest n = (refl, unfold arrivals in refl)
  deliveries-on_event sent rest n = (refl, unfold arrivals in refl)
  deliveries-on_event closed rest n = (refl, unfold arrivals in deliveries-on_closed s rest)
  deliveries-on_event (recv p sends) rest n = simp n (refl, deliveries-receive p sends rest)

  arrivals-cons :
      (e : Event) (es : List Event) → arrivals (e ∷ es) ≡ arrivals (e ∷ []) ++ arrivals es
  unfolding arrivals
  arrivals-cons e es = ground arith

  -- A connection that is negotiated stays as it is and delivers every symbol packet and every log
  -- that arrives, once and in the order of arrival, when the handler has the two callbacks.
  pub run-deliveries :
      (es : List Event)
      → s.is_negotiated ≡ true
      → ((run es s).0 ≡ s) × (deliveries (run es s).1 ≡ arrivals es)
  unfolding run
  run-deliveries [] n = (refl, unfold arrivals deliveries in refl)
  run-deliveries (e ∷ es) n =
      let (same, later) = run-deliveries es n in
      let (kept, here) = deliveries-on_event e (run es s).1 n in
      (rw (kept, same), rw (kept, here, later) (sym (arrivals-cons e es)))
