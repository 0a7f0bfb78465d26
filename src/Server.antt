-- ===== src/Server.antt =====
-- tracer/protocol/server.go: what a server does with the events of its connections. The handler's
-- callbacks and the calls of the connection are the effects, in their order; the connection is
-- package xtcp's, and whether Send fails is its answer.
pub mod Session
pub mod Conns
use goapptrace.Base.{ℕ, Bool, true, false, ◌||◌, ◌==◌, List, [], ◌∷◌, ◌++◌, if◌then◌else◌}
use goapptrace.Base.Int.{ℤ}
use goapptrace.Types.{SymbolsData, RawFuncLog}
use goapptrace.Protocol.{
  Packet, ClientHello, client_hello, server_hello, symbol, raw_func_log, ping,
}

-- isCompatibleVersion: ProtocolVersion is "1".
abbrev pub protocol_version : List ℕ
protocol_version = 49 ∷ []

unfoldable pub is_compatible_version : List ℕ → Bool
is_compatible_version (v ∷ []) = v == 49
is_compatible_version version = false

-- The errors that are made, and that of Send.
pub data Error : Type 0 where
  unexpected_hello not_compatible unexpected_packet send_failed : Error

-- The callbacks of the handler that are called, what is logged where there is no Error callback,
-- and the calls of the connection.
pub data Effect : Type 0 where
  connected : ClientHello → Effect
  disconnected : Effect
  error : Error → Effect
  logged : Error → Effect
  symbols : SymbolsData → Effect
  new_log : RawFuncLog → Effect
  send : Packet → Effect
  stop : Effect

-- Which callbacks of a ConnHandler are not nil.
pub record Handler : Type 0 where
  pub has_connected : Bool
  pub has_disconnected : Bool
  pub has_error : Bool
  pub has_symbols : Bool
  pub has_raw_func_log : Bool

-- `mocked` says that sendHandler and stopHandler are set, as the tests do.
pub record ServerConn : Type 0 where
  pub id : ℤ
  pub handler : Handler
  pub is_negotiated : Bool
  pub mocked : Bool

-- xtcp's events. EventRecv brings a packet; `sends` is whether Conn.Send succeeds while it is
-- handled.
pub data Event : Type 0 where
  accept sent closed : Event
  recv : Packet → (sends : Bool) → Event

abbrev pub call : Bool → Effect → List Effect
call set e = if set then e ∷ [] else []

unfoldable pub on_closed : ServerConn → List Effect
on_closed s = call s.handler.has_disconnected disconnected

-- s.error(err) and s.Stop(xtcp.StopImmediately): the mock is followed by EventClosed.
unfoldable pub fail : Error → ServerConn → List Effect
fail e s =
    (if s.handler.has_error then error e else logged e)
    ∷ stop
    ∷ (if s.mocked then on_closed s else [])

abbrev pub negotiated : ServerConn → ServerConn
negotiated s = record { id = s.id; handler = s.handler; is_negotiated = true; mocked = s.mocked }

-- Conn.Send fails where it does; the mock does not.
unfoldable pub greet : ClientHello → Bool → ServerConn → ServerConn × List Effect
unfolding fail
greet p sends s =
    if is_compatible_version p.protocol_version
    then (if s.mocked || sends
        then (
          negotiated s,
          send (server_hello protocol_version) ∷ call s.handler.has_connected (connected p),
        )
        else (s, send (server_hello protocol_version) ∷ fail send_failed s))
    else (s, fail not_compatible s)

unfoldable pub negotiate : Packet → Bool → ServerConn → ServerConn × List Effect
unfolding greet fail
negotiate (client_hello p) sends s = greet p sends s
negotiate p sends s = (s, fail unexpected_hello s)

unfoldable pub receive : Packet → ServerConn → List Effect
unfolding fail
receive ping s = []
receive (symbol d) s = call s.handler.has_symbols (symbols d)
receive (raw_func_log r) s = call s.handler.has_raw_func_log (new_log r)
receive p s = fail unexpected_packet s

unfoldable pub on_event : Event → ServerConn → ServerConn × List Effect
unfolding negotiate receive on_closed
on_event accept s = (s, [])
on_event sent s = (s, [])
on_event closed s = (s, on_closed s)
on_event (recv p sends) s = if s.is_negotiated then (s, receive p s) else negotiate p sends s

unfoldable pub run : List Event → ServerConn → ServerConn × List Effect
run [] s = (s, [])
run (e ∷ es) s = let r = on_event e s in let rest = run es r.0 in (rest.0, r.1 ++ rest.1)
