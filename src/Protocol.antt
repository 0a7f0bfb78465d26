-- ===== src/Protocol.antt =====
-- tracer/protocol/packet.go: the packets of the trace protocol and their bodies.
pub mod Bodies
pub mod Proto
pub mod Framing
pub mod Merge
use goapptrace.Base.{
  ℕ, ◌≡◌, Option, none, some, List, [], ◌∷◌, Outcome, ok, panic, or_panic, length,
}
use goapptrace.Base
use goapptrace.Types.{RawFuncLog, SymbolsData, max_stack_size}
use goapptrace.Encoding.Slices.{Marshal, Unmarshal, ◌&>◌, ◌>>=◌, map_unmarshal}
use goapptrace.Encoding.Buildin.{
  marshal_uint64, unmarshal_uint64, marshal_string, unmarshal_string, copy_bytes,
}
use goapptrace.Encoding.Log.{marshal_raw_func_log, unmarshal_raw_func_log}
use goapptrace.Encoding.Symbols.{marshal_symbols_data, unmarshal_symbols_data}

-- encoding/json on the commands, which are structs of one string: what is written for a text is
-- read back as that text. `IsText` are the strings that JSON can hold, valid UTF-8.
pub record Json : Type 1 where
  pub IsText : List ℕ → Type 0
  pub encode : List ℕ → List ℕ
  pub decode : List ℕ → Option (List ℕ)
  pub decode-encode : (s : List ℕ) → IsText s → decode (encode s) ≡ some s

pub record ClientHello : Type 0 where
  pub pid : ℕ
  pub app_name : List ℕ
  pub host : List ℕ
  pub client_secret : List ℕ
  pub protocol_version : List ℕ

pub data Packet : Type 0 where
  fake : List ℕ → Packet
  client_hello : ClientHello → Packet
  server_hello : List ℕ → Packet
  log : Packet
  ping : Packet
  shutdown : Packet
  start_trace_cmd : List ℕ → Packet
  stop_trace_cmd : List ℕ → Packet
  symbol : SymbolsData → Packet
  raw_func_log : RawFuncLog → Packet

-- The Go types behind the interface; createPacket makes an empty packet of one.
pub data PacketKind : Type 0 where
  fake_kind client_hello_kind server_hello_kind log_kind ping_kind shutdown_kind : PacketKind
  start_trace_cmd_kind stop_trace_cmd_kind symbol_kind raw_func_log_kind : PacketKind

unfoldable pub detect_packet_type : Packet → ℕ
detect_packet_type (fake s) = 0
detect_packet_type (client_hello p) = 1
detect_packet_type (server_hello v) = 2
detect_packet_type log = 3
detect_packet_type ping = 4
detect_packet_type shutdown = 5
detect_packet_type (start_trace_cmd f) = 6
detect_packet_type (stop_trace_cmd f) = 7
detect_packet_type (symbol d) = 8
detect_packet_type (raw_func_log r) = 9

-- The case for ShutdownPacketType makes a PingPacket, as in the source.
unfoldable pub create_packet : ℕ → Outcome PacketKind
create_packet t = or_panic (Base.get_elem? kinds t)
  where
    kinds : List PacketKind
    kinds =
        fake_kind ∷ client_hello_kind ∷ server_hello_kind ∷ log_kind ∷ ping_kind ∷ ping_kind
        ∷ start_trace_cmd_kind ∷ stop_trace_cmd_kind ∷ symbol_kind ∷ raw_func_log_kind ∷ []

unfoldable pub marshal_client_hello : ClientHello → Marshal
marshal_client_hello p =
    marshal_uint64 p.pid
    &> marshal_string p.app_name
    &> marshal_string p.host
    &> marshal_string p.client_secret
    &> marshal_string p.protocol_version

unfoldable pub unmarshal_client_hello : Unmarshal ClientHello
unmarshal_client_hello = do
  pid ← unmarshal_uint64
  app_name ← unmarshal_string
  host ← unmarshal_string
  client_secret ← unmarshal_string
  map_unmarshal
      (λ version. record {
        pid = pid;
        app_name = app_name;
        host = host;
        client_secret = client_secret;
        protocol_version = version;
      })
      unmarshal_string

module _ (json : Json) where
  -- The length of the JSON text as a uint64, then as much of the text as fits.
  unfoldable pub slow_marshal : List ℕ → Marshal
  slow_marshal v = let js = json.encode v in marshal_uint64 (length js) &> copy_bytes js

  decoded : Outcome (List ℕ × ℕ) → Outcome (List ℕ × ℕ)
  decoded panic = panic
  decoded (ok (js, n)) = Base.◌>>=◌ (or_panic (json.decode js)) λ v. ok (v, n)

  -- json.Unmarshal on buf[total:total+length]; its errors panic.
  unfoldable pub slow_unmarshal : Unmarshal (List ℕ)
  unfolding decoded
  slow_unmarshal buf = decoded (unmarshal_string buf)

  unfoldable pub marshal_packet : Packet → Marshal
  marshal_packet (fake s) = copy_bytes s
  marshal_packet (client_hello p) = marshal_client_hello p
  marshal_packet (server_hello v) = marshal_string v
  marshal_packet log = λ buf. panic
  marshal_packet ping = λ buf. ok (buf, 0)
  marshal_packet shutdown = λ buf. ok (buf, 0)
  marshal_packet (start_trace_cmd f) = slow_marshal f
  marshal_packet (stop_trace_cmd f) = slow_marshal f
  marshal_packet (symbol d) = marshal_symbols_data d
  marshal_packet (raw_func_log r) = marshal_raw_func_log r

  -- Unmarshal on the empty packet of the kind. A fakePacket takes the whole slice.
  unfoldable pub unmarshal_packet : PacketKind → Unmarshal Packet
  unmarshal_packet fake_kind = λ buf. ok (fake buf, length buf)
  unmarshal_packet client_hello_kind = map_unmarshal client_hello unmarshal_client_hello
  unmarshal_packet server_hello_kind = map_unmarshal server_hello unmarshal_string
  unmarshal_packet log_kind = λ buf. panic
  unmarshal_packet ping_kind = λ buf. ok (ping, 0)
  unmarshal_packet shutdown_kind = λ buf. ok (shutdown, 0)
  unmarshal_packet start_trace_cmd_kind = map_unmarshal start_trace_cmd slow_unmarshal
  unmarshal_packet stop_trace_cmd_kind = map_unmarshal stop_trace_cmd slow_unmarshal
  unmarshal_packet symbol_kind = map_unmarshal symbol unmarshal_symbols_data
  unmarshal_packet raw_func_log_kind =
      map_unmarshal raw_func_log (unmarshal_raw_func_log max_stack_size)
