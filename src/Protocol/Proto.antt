-- ===== src/Protocol/Proto.antt =====
-- tracer/protocol/protocol.go: a message is its size as a uint32, the packet type as a byte, the body.
use goapptrace.Base.{
  ℕ, ◌+◌, ◌%◌, ◌^◌, List, ◌++◌, Outcome, ok, panic, ◌>>=◌, ltb, if◌then◌else◌, length, take, drop,
}
use goapptrace.Encoding.Slices.{Marshal, Unmarshal, ◌&>◌, ◌>>=◌ as ◌then_read◌, slice_from}
use goapptrace.Encoding.Slices
use goapptrace.Encoding.Buildin.{marshal_uint32, unmarshal_uint32, marshal_uint8, unmarshal_uint8}
use goapptrace.Protocol.{
  Json, Packet, detect_packet_type, create_packet, marshal_packet, unmarshal_packet,
}

abbrev pub packet_header_size : ℕ
packet_header_size = 5

-- Unpack returns (nil, 0, nil) while the message is not there as a whole, (nil, size, err) where
-- its body panics, and (packet, size, nil).
pub data Unpacked : Type 0 where
  incomplete : Unpacked
  failed : ℕ → Unpacked
  unpacked : Packet → ℕ → Unpacked

module _ (json : Json) where
  -- The header packet and the packet, in buf[4:].
  unfoldable pub marshal_payload : Packet → Marshal
  marshal_payload p = marshal_uint8 (detect_packet_type p) &> marshal_packet json p

  unfoldable pub pack_to_byte_slice : Packet → Marshal
  unfolding slice_from
  pack_to_byte_slice p buf = do
    payload_buf ← slice_from 4 buf
    (payload, n) ← marshal_payload p payload_buf
    let payload_size = n % 2 ^ 32
    (front, k) ← marshal_uint32 payload_size (take 4 buf)
    ok (front ++ payload, (payload_size + 4) % 2 ^ 32)

  -- The body of the function that Unpack hands to PanicHandler.
  unfoldable pub unmarshal_payload : Unmarshal Packet
  unmarshal_payload =
      Slices.◌>>=◌ unmarshal_uint8
        λ t buf. do kind ← create_packet t; unmarshal_packet json kind buf

  -- PanicHandler turns a panic into an error.
  abbrev pub handled : ℕ → Outcome (Packet × ℕ) → Unpacked
  handled size panic = failed size
  handled size (ok (p, n)) = unpacked p size

  abbrev pub with_size : List ℕ → Outcome (ℕ × ℕ) → Unpacked
  with_size b panic = incomplete
  with_size b (ok (data_packet_size, n)) =
      if ltb (length (drop 4 b)) data_packet_size
      then incomplete
      else handled (4 + data_packet_size) (unmarshal_payload (drop 4 b))

  unfoldable pub unpack : List ℕ → Unpacked
  unpack b = if ltb (length b) 4 then incomplete else with_size b (unmarshal_uint32 b)
