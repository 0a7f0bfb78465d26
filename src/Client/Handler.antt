-- ===== src/Client/Handler.antt =====
-- tracer/protocol/client.go, Client.OnEvent: what a client does with the events of its connection.
-- The calls of the handler, of the connection and of the workers are the effects, in their order.
use goapptrace.Base.{
  ℕ, ◌+◌, ◌≡◌, refl, sym, ap, ◌∙◌, arith, Bool, true, false, List, [], ◌∷◌, ◌++◌, Outcome, ok,
  panic, ◌>>=◌, Bool-cases, inl, inr, if◌then◌else◌,
}
use goapptrace.Protocol.{
  Packet, ClientHello, client_hello, server_hello, ping, shutdown, start_trace_cmd, stop_trace_cmd,
  symbol, raw_func_log,
}
use goapptrace.Server.{is_compatible_version}

-- Which callbacks of a ClientHandler are not nil.
pub record ClientHandler : Type 0 where
  pub has_connected : Bool
  pub has_disconnected : Bool
  pub has_error : Bool
  pub has_shutdown : Bool
  pub has_start_trace : Bool
  pub has_stop_trace : Bool

-- `channel_closed` is whether negotiatedCh is closed.
pub record Client : Type 0 where
  pub hello : ClientHello
  pub client_handler : ClientHandler
  pub is_negotiated : Bool
  pub channel_closed : Bool

pub data ClientEffect : Type 0 where
  on_connected on_disconnected on_error on_shutdown : ClientEffect
  on_start_trace on_stop_trace : List ℕ → ClientEffect
  send_packet : Packet → ClientEffect
  start_workers cancel_workers stop_immediately stop_gracefully put_back fatal : ClientEffect

-- xtcp's events; `sends` is whether Conn.Send succeeds, and EventSend says whether what was sent is a
-- MergePacket.
pub data ClientEvent : Type 0 where
  connected : (sends : Bool) → ClientEvent
  received : Packet → ClientEvent
  was_sent : (merged : Bool) → ClientEvent
  was_closed : ClientEvent

abbrev notify : Bool → ClientEffect → List ClientEffect
notify set e = if set then e ∷ [] else []

-- c.error(err) and c.stop(xtcp.StopImmediately); without a callback the error is logged.
unfoldable client_fail : Client → List ClientEffect
client_fail c = notify c.client_handler.has_error on_error ++ (stop_immediately ∷ [])

-- Closing a closed channel panics.
unfoldable negotiated : Client → Outcome Client
negotiated c =
    if c.channel_closed
    then panic
    else ok (record {
      hello = c.hello;
      client_handler = c.client_handler;
      is_negotiated = true;
      channel_closed = true;
    })

unfoldable accept_server : List ℕ → Client → Outcome (Client × List ClientEffect)
unfolding negotiated client_fail
accept_server version c =
    if is_compatible_version version
    then (negotiated c >>= λ d.
        ok (d, start_workers ∷ notify c.client_handler.has_connected on_connected))
    else ok (c, client_fail c)

unfoldable first_packet : Packet → Client → Outcome (Client × List ClientEffect)
unfolding accept_server client_fail
first_packet (server_hello version) c = accept_server version c
first_packet p c = ok (c, client_fail c)

unfoldable later_packet : Packet → Client → List ClientEffect
unfolding client_fail
later_packet ping c = []
later_packet shutdown c =
    notify c.client_handler.has_shutdown on_shutdown
    ++ (cancel_workers
        ∷ stop_gracefully
        ∷ (if c.client_handler.has_shutdown then [] else fatal ∷ []))
later_packet (start_trace_cmd f) c = notify c.client_handler.has_start_trace (on_start_trace f)
later_packet (stop_trace_cmd f) c = notify c.client_handler.has_stop_trace (on_stop_trace f)
later_packet (symbol d) c = stop_immediately ∷ []
later_packet (raw_func_log r) c = stop_immediately ∷ []
later_packet p c = client_fail c

unfoldable client_on_event : ClientEvent → Client → Outcome (Client × List ClientEffect)
unfolding first_packet later_packet client_fail
client_on_event (connected sends) c =
    ok (c, send_packet (client_hello c.hello) ∷ (if sends then [] else client_fail c))
client_on_event (received p) c =
    if c.is_negotiated then ok (c, later_packet p c) else first_packet p c
client_on_event (was_sent merged) c = ok (c, notify merged put_back)
client_on_event was_closed c =
    ok (c, cancel_workers ∷ notify c.client_handler.has_disconnected on_disconnected)

pub client_run : List ClientEvent → Client → Outcome (Client × List ClientEffect)
client_run [] c = ok (c, [])
client_run (e ∷ es) c =
    client_on_event e c >>= λ r. client_run es r.0 >>= λ rest. ok (rest.0, r.1 ++ rest.1)

-- The workers that effects start.
unfoldable pub starts : List ClientEffect → ℕ
starts [] = 0
starts (start_workers ∷ es) = 1 + starts es
starts (_ ∷ es) = starts es

starts-append : (xs ys : List ClientEffect) → starts (xs ++ ys) ≡ starts xs + starts ys
unfolding starts
starts-append [] ys = omega arith
starts-append (x ∷ xs) ys = ground (arith, starts-append xs ys)

starts-client_fail : (c : Client) → starts (client_fail c) ≡ 0
unfolding starts client_fail
starts-client_fail c = ground arith

starts-later_packet : (p : Packet) (c : Client) → starts (later_packet p c) ≡ 0
unfolding starts later_packet client_fail
starts-later_packet p c = ground arith

abbrev pub as_number : Bool → ℕ
as_number true = 1
as_number false = 0

-- The channel is closed where the client is negotiated.
abbrev pub IsClient : Client → Type 0
IsClient c = c.channel_closed ≡ c.is_negotiated

-- `o` returns, with a client as it should be, and starts the workers where it negotiates.
abbrev pub Starts : Client → Outcome (Client × List ClientEffect) → Type 0
Starts c o =
    (d : Client) × (fx : List ClientEffect) × (o ≡ ok (d, fx))
    × IsClient d
    × (starts fx + as_number c.is_negotiated ≡ as_number d.is_negotiated)

same-Starts :
    (c : Client) (fx : List ClientEffect) → IsClient c → starts fx ≡ 0 → Starts c (ok (c, fx))
same-Starts c fx h e = (c, fx, refl, h, omega arith)

negotiated-ok :
    (c : Client)
    → IsClient c
    → c.is_negotiated ≡ false
    → (d : Client) × (negotiated c ≡ ok d) × (d.channel_closed ≡ true) × (d.is_negotiated ≡ true)
unfolding negotiated
negotiated-ok c h n = (
  record {
    hello = c.hello;
    client_handler = c.client_handler;
    is_negotiated = true;
    channel_closed = true;
  },
  simp (h ∙ n),
  refl,
  refl,
)

starts-greeting : (set : Bool) → starts (start_workers ∷ notify set on_connected) ≡ 1
unfolding starts
starts-greeting set = ground arith

accept_server-Starts :
    (version : List ℕ) (c : Client)
    → IsClient c
    → c.is_negotiated ≡ false
    → Starts c (accept_server version c)
unfolding accept_server
accept_server-Starts version c h n = elim (Bool-cases (is_compatible_version version)) [
  | inl e ↦
      let (d, closed, x, y) = negotiated-ok c h n in
      let fx : List ClientEffect =
        start_workers ∷ notify c.client_handler.has_connected on_connected in
      let one : starts fx + 0 ≡ 1 = omega (arith, starts-greeting c.client_handler.has_connected) in
      (
        d,
        fx,
        rw e (rw closed),
        x ∙ sym y,
        ap (λ b. starts fx + as_number b) n ∙ one ∙ sym (ap as_number y),
      )
  | inr e ↦ (c, client_fail c, rw e, h, omega (arith, starts-client_fail c))
]

first_packet-Starts :
    (p : Packet) (c : Client) → IsClient c → c.is_negotiated ≡ false → Starts c (first_packet p c)
unfolding first_packet
first_packet-Starts (server_hello version) c h n = accept_server-Starts version c h n
first_packet-Starts _ c h n = same-Starts c (client_fail c) h (starts-client_fail c)

received-Starts :
    (b : Bool) (p : Packet) (c : Client)
    → IsClient c
    → c.is_negotiated ≡ b
    → Starts c (if b then ok (c, later_packet p c) else first_packet p c)
received-Starts true p c h n = same-Starts c (later_packet p c) h (starts-later_packet p c)
received-Starts false p c h n = first_packet-Starts p c h n

client_on_event-Starts :
    (e : ClientEvent) (c : Client) → IsClient c → Starts c (client_on_event e c)
unfolding client_on_event
client_on_event-Starts (connected sends) c h =
    same-Starts c _ h (unfold starts client_fail in ground arith)
client_on_event-Starts (received p) c h = received-Starts c.is_negotiated p c h refl
client_on_event-Starts (was_sent merged) c h = same-Starts c _ h (unfold starts in ground arith)
client_on_event-Starts was_closed c h = same-Starts c _ h (unfold starts in ground arith)

-- Whatever events a client sees, from a state where negotiatedCh is closed only if the client is
-- negotiated, OnEvent never panics by closing the channel twice; the state stays so, and the two
-- workers are started once if the client becomes negotiated in between, and else not at all.
pub client_run-Starts :
    (es : List ClientEvent) (c : Client) → IsClient c → Starts c (client_run es c)
unfolding client_run
client_run-Starts [] c h = (c, [], refl, h, unfold starts in omega arith)
client_run-Starts (e ∷ es) c h =
    let (d, fx, did, hd, n) = client_on_event-Starts e c h in
    let (d', fx', did', hd', n') = client_run-Starts es d hd in
    (d', fx ++ fx', rw did (rw did'), hd', omega (arith, starts-append fx fx'))
