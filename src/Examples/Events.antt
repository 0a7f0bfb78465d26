-- ===== src/Examples/Events.antt =====
-- tracer/protocol: a client and a server say hello, and the client sends a log.
use goapptrace.Base.{ℕ, arith, ◌≡◌, refl, true, false, List, [], ◌∷◌, some}
use goapptrace.Base.Int.{ℤ, pos}
use goapptrace.Base.Maps.{nat_eq, lookup}
use goapptrace.Types.{RawFuncLog}
use goapptrace.Protocol.{ClientHello, client_hello, server_hello, shutdown, ping, raw_func_log}
use goapptrace.Client.Handler.{
  ClientHandler, Client, ClientEvent, connected, received, client_run, Starts, client_run-Starts,
}
use goapptrace.Server.{Handler, ServerConn, Event, accept, recv, closed, run}
use goapptrace.Server.Session.{InOrder, deliveries, arrivals, run-InOrder, run-deliveries}
use goapptrace.Server.Conns.{
  Server, IsServer, server_on_event, server_run, events_of, effects_of, server_run-run,
  server_on_event-IsServer,
}

abbrev handler : Handler
handler = record {
  has_connected = true;
  has_disconnected = true;
  has_error = false;
  has_symbols = true;
  has_raw_func_log = true;
}

abbrev hello : ClientHello
hello = record { pid = 1; app_name = []; host = []; client_secret = []; protocol_version = 49 ∷ [] }

abbrev log_one : RawFuncLog
log_one = record { id = pos 1; tag = 0; timestamp = pos 10; frames = []; gid = pos 3; txid = 7 }

abbrev events : List Event
events =
    accept
    ∷ recv (client_hello hello) true
    ∷ recv (raw_func_log log_one) true
    ∷ recv (client_hello hello) true
    ∷ closed
    ∷ []

abbrev fresh : ServerConn
fresh = record { id = pos 0; handler = handler; is_negotiated = false; mocked = false }

abbrev running : ServerConn
running = record { id = pos 0; handler = handler; is_negotiated = true; mocked = true }

run-InOrder_example : InOrder (run events fresh).1 false
run-InOrder_example = run-InOrder events fresh refl

run-deliveries_example :
    ((run events running).0 ≡ running) × (deliveries (run events running).1 ≡ arrivals events)
run-deliveries_example = run-deliveries running refl refl events refl

abbrev handlers : ℤ → Handler
handlers n = handler

abbrev server : Server
server = record { conn_map = (4, fresh) ∷ []; next_conn_id = pos 1 }

abbrev mixed : List (ℕ × Event)
mixed =
    (4, accept)
    ∷ (5, accept)
    ∷ (4, recv (client_hello hello) true)
    ∷ (5, recv ping true)
    ∷ (4, closed)
    ∷ []

server_run-run_example :
    (effects_of 4 (server_run handlers mixed server).1 ≡ (run (events_of 4 mixed) fresh).1)
    × (lookup 4 (server_run handlers mixed server).0.conn_map
        ≡ some (run (events_of 4 mixed) fresh).0)
unfolding lookup
server_run-run_example = server_run-run handlers mixed 4 fresh server refl

abbrev no_conns : Server
no_conns = record { conn_map = []; next_conn_id = pos 0 }

no_conns-IsServer : IsServer no_conns
unfolding lookup
no_conns-IsServer = record { given = λ k c e. cc; distinct = λ j k c d e f s. cc }

server_on_event-IsServer_example : IsServer (server_on_event handlers accept 4 no_conns).0
server_on_event-IsServer_example =
    server_on_event-IsServer handlers accept 4 no_conns (omega arith) no_conns-IsServer

abbrev client_handler : ClientHandler
client_handler = record {
  has_connected = true;
  has_disconnected = false;
  has_error = true;
  has_shutdown = true;
  has_start_trace = true;
  has_stop_trace = false;
}

abbrev client : Client
client = record {
  hello = hello;
  client_handler = client_handler;
  is_negotiated = false;
  channel_closed = false;
}

-- The server says hello twice.
abbrev client_events : List ClientEvent
client_events =
    connected true
    ∷ received (server_hello (49 ∷ []))
    ∷ received (server_hello (49 ∷ []))
    ∷ received shutdown
    ∷ []

client_run-Starts_example : Starts client (client_run client_events client)
client_run-Starts_example = client_run-Starts client_events client refl
