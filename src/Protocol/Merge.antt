-- ===== src/Protocol/Merge.antt =====
-- tracer/protocol/packet.go, MergePacket: short packets marshalled one after the other into one
-- buffer.
pub mod Batches
use goapptrace.Base.{
  ℕ, zero, ◌+◌, ◌≤◌, ◌<◌, ◌≡◌, refl, sym, ap, ◌∙◌, arith, List, [], ◌∷◌, ◌++◌, map, append_assoc,
  append-nil, Option, none, some, Outcome, ok, panic, ◌>>=◌, length, length-append, length-drop,
  length-take, length-replicate, take, drop, replicate, take-append_length, drop-append_length,
  drop-drop, All,
}
use goapptrace.Encoding.Slices.{slice_from}
use goapptrace.Encoding.Symbols.{size_symbols_data}
use goapptrace.Protocol.{Json, Packet, symbol}
use goapptrace.Protocol.Proto.{pack_to_byte_slice, unpack, Unpacked, unpacked, packet_header_size}

-- A nil buffer is `none`.
pub record MergePacket : Type 0 where
  pub buffer_size : ℕ
  pub buff : Option (List ℕ)
  pub size : ℕ

abbrev pub new_merge_packet : ℕ → MergePacket
new_merge_packet n = record { buffer_size = n; buff = none; size = 0 }

abbrev pub buffer : MergePacket → List ℕ
buffer p = elim p.buff [ none ↦ replicate p.buffer_size 0 | some b ↦ b ]

unfoldable pub reset : MergePacket → MergePacket
reset p = record { buffer_size = p.buffer_size; buff = p.buff; size = 0 }

unfoldable pub len : MergePacket → ℕ
len p = p.size

-- The bytes that WriteTo hands to the writer, p.buff[:p.size].
unfoldable pub written : MergePacket → List ℕ
written p = take p.size (elim p.buff [ none ↦ [] | some b ↦ b ])

-- WriteTo with the number of bytes and the error of w.Write on p.buff[:p.size].
unfoldable pub write_to :
    {E : Type 0} → (List ℕ → ℕ × Option E) → MergePacket → MergePacket × (ℕ × Option E)
unfolding written reset
write_to w p = let r = w (written p) in (elim r.1 [ none ↦ reset p | some e ↦ p ], r)

module _ (json : Json) where
  -- p.size += p.Proto.PackToByteSlice(packet, p.buff[p.size:])
  unfoldable pub merge : Packet → MergePacket → Outcome MergePacket
  unfolding slice_from
  merge packet p = do
    room ← slice_from p.size (buffer p)
    (out, n) ← pack_to_byte_slice json packet room
    ok (record {
      buffer_size = p.buffer_size;
      buff = some (take p.size (buffer p) ++ out);
      size = p.size + n;
    })

  unfoldable pub merge_all : List Packet → MergePacket → Outcome MergePacket
  merge_all [] p = ok p
  merge_all (x ∷ xs) p = merge x p >>= merge_all xs

  -- PacketSize of the packet; the type assertion fails for all but SymbolPacket.
  unfoldable pub packet_size : Packet → Outcome ℕ
  packet_size (symbol d) = ok (size_symbols_data d)
  packet_size p = panic

  unfoldable pub marshal_large_packet : Packet → Outcome MergePacket
  unfolding merge packet_size
  marshal_large_packet p = do
    size ← packet_size p
    merge p (new_merge_packet (size + packet_header_size))
