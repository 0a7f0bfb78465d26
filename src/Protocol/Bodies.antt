-- ===== src/Protocol/Bodies.antt =====
-- The bytes of each packet body, and that Marshal writes and Unmarshal reads them.
use goapptrace.Base.{ℕ, ◌≡◌, refl, List, [], ◌++◌, ok}
use goapptrace.Types.{IsUint64, IsString, IsRawFuncLog, IsSymbolsData}
use goapptrace.Encoding.Slices.{Writes, Reads, &>-Writes, >>=-Reads, map_unmarshal-Reads}
use goapptrace.Encoding.Buildin.{marshal_string}
use goapptrace.Encoding.Buildin.Format.{
  uint64_bytes, marshal_uint64-Writes, unmarshal_uint64-Reads, string_bytes, marshal_string-Writes,
  unmarshal_string-Reads,
}
use goapptrace.Encoding.Log.Format.{
  raw_func_log_bytes, marshal_raw_func_log-Writes, unmarshal_raw_func_log-Reads,
}
use goapptrace.Encoding.Symbols.Format.{
  symbols_data_bytes, marshal_symbols_data-Writes, unmarshal_symbols_data-Reads,
}
use goapptrace.Protocol.{
  Json, ClientHello, Packet, fake, client_hello, server_hello, log, ping, shutdown, start_trace_cmd,
  stop_trace_cmd, symbol, raw_func_log, PacketKind, create_packet, detect_packet_type,
  marshal_client_hello, unmarshal_client_hello, slow_marshal, slow_unmarshal, decoded,
  marshal_packet, unmarshal_packet,
}

pub record IsClientHello (p : ClientHello) : Type 0 where
  pub pid : IsUint64 p.pid
  pub app_name : IsString p.app_name
  pub host : IsString p.host
  pub client_secret : IsString p.client_secret
  pub protocol_version : IsString p.protocol_version

client_hello_bytes : ClientHello → List ℕ
client_hello_bytes p =
    uint64_bytes p.pid
    ++ (string_bytes p.app_name
        ++ (string_bytes p.host
            ++ (string_bytes p.client_secret ++ string_bytes p.protocol_version)))

marshal_client_hello-Writes :
    (p : ClientHello) → Writes (marshal_client_hello p) (client_hello_bytes p)
unfolding marshal_client_hello client_hello_bytes
marshal_client_hello-Writes p = &>-Writes _ _ _ _ (marshal_uint64-Writes p.pid) (
    &>-Writes _ _ _ _ (marshal_string-Writes p.app_name) (
      &>-Writes _ _ _ _ (marshal_string-Writes p.host) (
        &>-Writes _ _ _ _ (marshal_string-Writes p.client_secret)
          (marshal_string-Writes p.protocol_version))))

unmarshal_client_hello-Reads :
    (p : ClientHello) → IsClientHello p → Reads unmarshal_client_hello p (client_hello_bytes p)
unfolding unmarshal_client_hello client_hello_bytes
unmarshal_client_hello-Reads p h = >>=-Reads _ _ p.pid p _ _ (unmarshal_uint64-Reads p.pid h.pid) (
    >>=-Reads _ _ p.app_name p _ _ (unmarshal_string-Reads p.app_name h.app_name) (
      >>=-Reads _ _ p.host p _ _ (unmarshal_string-Reads p.host h.host) (
        >>=-Reads _ _ p.client_secret p _ _ (unmarshal_string-Reads p.client_secret h.client_secret)
          (map_unmarshal-Reads _ _ p.protocol_version _
            (unmarshal_string-Reads p.protocol_version h.protocol_version)))))

-- The packet that is read for the one that was sent: createPacket makes a PingPacket of a
-- ShutdownPacket.
abbrev pub received : Packet → Packet
received shutdown = ping
received p = p

module _ (json : Json) where
  slow_marshal-Writes : (v : List ℕ) → Writes (slow_marshal json v) (string_bytes (json.encode v))
  unfolding slow_marshal
  slow_marshal-Writes v = unfold marshal_string in marshal_string-Writes (json.encode v)

  slow_unmarshal-Reads :
      (v : List ℕ)
      → json.IsText v
      → IsString (json.encode v)
      → Reads (slow_unmarshal json) v (string_bytes (json.encode v))
  unfolding slow_unmarshal decoded
  slow_unmarshal-Reads v t h rest =
      rw (unmarshal_string-Reads (json.encode v) h rest) (rw (json.decode-encode v t))

  -- The packets that are sent: LogPacket is not implemented, and a fakePacket is a mock whose body
  -- has no end.
  abbrev pub IsSendable : Packet → Type 0
  IsSendable (client_hello p) = IsClientHello p
  IsSendable (server_hello v) = IsString v
  IsSendable ping = Unit {0}
  IsSendable shutdown = Unit {0}
  IsSendable (start_trace_cmd f) = json.IsText f × IsString (json.encode f)
  IsSendable (stop_trace_cmd f) = json.IsText f × IsString (json.encode f)
  IsSendable (symbol d) = IsSymbolsData d
  IsSendable (raw_func_log r) = IsRawFuncLog r
  IsSendable _ = ⊥

  unfoldable pub body_bytes : Packet → List ℕ
  unfolding client_hello_bytes
  body_bytes (client_hello p) = client_hello_bytes p
  body_bytes (server_hello v) = string_bytes v
  body_bytes (start_trace_cmd f) = string_bytes (json.encode f)
  body_bytes (stop_trace_cmd f) = string_bytes (json.encode f)
  body_bytes (symbol d) = symbols_data_bytes d
  body_bytes (raw_func_log r) = raw_func_log_bytes r
  body_bytes _ = []

  pub marshal_packet-Writes :
      (p : Packet) → IsSendable p → Writes (marshal_packet json p) (body_bytes p)
  unfolding marshal_packet body_bytes
  marshal_packet-Writes (client_hello p) h = marshal_client_hello-Writes p
  marshal_packet-Writes (server_hello v) h = marshal_string-Writes v
  marshal_packet-Writes ping h = λ buf room. refl
  marshal_packet-Writes (start_trace_cmd f) h = slow_marshal-Writes f
  marshal_packet-Writes (stop_trace_cmd f) h = slow_marshal-Writes f
  marshal_packet-Writes (symbol d) h = marshal_symbols_data-Writes d
  marshal_packet-Writes (raw_func_log r) h = marshal_raw_func_log-Writes r
  marshal_packet-Writes (fake s) h = absurd h
  marshal_packet-Writes log h = absurd h
  marshal_packet-Writes shutdown h = λ buf room. refl

  -- createPacket finds the type again, and its Unmarshal reads the packet.
  pub unmarshal_packet-Reads :
      (p : Packet)
      → IsSendable p
      → (kind : PacketKind) × (create_packet (detect_packet_type p) ≡ ok kind)
        × Reads (unmarshal_packet json kind) (received p) (body_bytes p)
  unfolding unmarshal_packet body_bytes create_packet detect_packet_type
  unmarshal_packet-Reads (client_hello p) h =
      (_, refl, map_unmarshal-Reads _ _ p _ (unmarshal_client_hello-Reads p h))
  unmarshal_packet-Reads (server_hello v) h =
      (_, refl, map_unmarshal-Reads _ _ v _ (unmarshal_string-Reads v h))
  unmarshal_packet-Reads ping h = (_, refl, λ rest. refl)
  unmarshal_packet-Reads (start_trace_cmd f) h =
      (_, refl, map_unmarshal-Reads _ _ f _ (slow_unmarshal-Reads f h.0 h.1))
  unmarshal_packet-Reads (stop_trace_cmd f) h =
      (_, refl, map_unmarshal-Reads _ _ f _ (slow_unmarshal-Reads f h.0 h.1))
  unmarshal_packet-Reads (symbol d) h =
      (_, refl, map_unmarshal-Reads _ _ d _ (unmarshal_symbols_data-Reads d h))
  unmarshal_packet-Reads (raw_func_log r) h =
      (_, refl, map_unmarshal-Reads _ _ r _ (unmarshal_raw_func_log-Reads r h))
  unmarshal_packet-Reads (fake s) h = absurd h
  unmarshal_packet-Reads log h = absurd h
  unmarshal_packet-Reads shutdown h = (_, refl, λ rest. refl)
