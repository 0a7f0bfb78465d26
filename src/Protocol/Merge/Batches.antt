-- ===== src/Protocol/Merge/Batches.antt =====
-- A merge packet holds the messages of the packets that were merged into it, in their order.
use goapptrace.Base.{
  ℕ, ◌+◌, ◌≤◌, ◌≡◌, refl, sym, subst, true, ◌∙◌, arith, List, [], ◌∷◌, ◌++◌, append_assoc,
  append-nil, Option, none, some, ok, leb, le→leb, length, length-append, length-drop, length-take,
  length-replicate, take, drop, take-append_length, drop-append_length, All,
}
use goapptrace.Types.{SymbolsData}
use goapptrace.Encoding.Symbols.{size_symbols_data}
use goapptrace.Encoding.Symbols.Format.{length-symbols_data_bytes}
use goapptrace.Protocol.Bodies.{body_bytes, received}
use goapptrace.Encoding.Slices.{slice_from}
use goapptrace.Protocol.{Json, Packet, symbol}
use goapptrace.Protocol.Proto.{unpack, unpacked, packet_header_size}
use goapptrace.Protocol.Framing.{
  IsPacket, packet_bytes, payload_bytes, length-packet_bytes, pack_to_byte_slice-Writes,
  unpack-packet_bytes,
}
use goapptrace.Protocol.Merge.{
  MergePacket, new_merge_packet, buffer, reset, len, write_to, written, merge, merge_all,
  packet_size, marshal_large_packet,
}

-- The first `size` bytes of the buffer are `bytes`.
pub record Holds (p : MergePacket) (bytes : List ℕ) : Type 0 where
  pub size : p.size ≡ length bytes
  pub front : take p.size (buffer p) ≡ bytes
  pub capacity : length (buffer p) ≡ p.buffer_size
  pub written : written p ≡ bytes

pub new_merge_packet-Holds : (n : ℕ) → Holds (new_merge_packet n) []
unfolding written
new_merge_packet-Holds n = record {
  size = refl;
  front = refl;
  capacity = length-replicate n 0;
  written = refl;
}

-- Reset forgets the messages and keeps the buffer.
pub reset-Holds : (p : MergePacket) (bytes : List ℕ) → Holds p bytes → Holds (reset p) []
unfolding reset written
reset-Holds p bytes h = record { size = refl; front = refl; capacity = h.capacity; written = refl }

module _ (json : Json) where
  -- The messages of the packets, one after the other.
  unfoldable pub messages : List Packet → List ℕ
  messages [] = []
  messages (p ∷ ps) = packet_bytes json p ++ messages ps

  -- Unpack, called again on what is left, gives the packets in their order, a PingPacket for each
  -- ShutdownPacket, and nothing is left.
  abbrev pub UnpacksTo : List Packet → List ℕ → Type 0
  UnpacksTo [] b = b ≡ []
  UnpacksTo (p ∷ ps) b =
      (n : ℕ) × (unpack json b ≡ unpacked (received p) n) × UnpacksTo ps (drop n b)

  pub messages-UnpacksTo : (ps : List Packet) → All (IsPacket json) ps → UnpacksTo ps (messages ps)
  unfolding messages
  messages-UnpacksTo [] h = refl
  messages-UnpacksTo (p ∷ ps) h =
      let left : drop (length (packet_bytes json p)) (messages (p ∷ ps)) ≡ messages ps =
        drop-append_length (packet_bytes json p) (messages ps) in
      (
        length (packet_bytes json p),
        unpack-packet_bytes json p (messages ps) h.0,
        subst (UnpacksTo ps) (sym left) (messages-UnpacksTo ps h.1),
      )

  pub merge-Holds :
      (mp : MergePacket) (bytes : List ℕ) (p : Packet)
      → Holds mp bytes
      → IsPacket json p
      → length bytes + length (packet_bytes json p) ≤ mp.buffer_size
      → (mq : MergePacket) × (merge json p mp ≡ ok mq)
        × (mq.buffer_size ≡ mp.buffer_size)
        × Holds mq (bytes ++ packet_bytes json p)
  unfolding merge slice_from written
  merge-Holds mp bytes p h k room =
      let msg = packet_bytes json p in
      let b = buffer mp in
      let s = mp.size in
      let e1 : leb s (length b) ≡ true = le→leb s (length b) (omega (arith, h.size, h.capacity)) in
      let e2 =
        pack_to_byte_slice-Writes json p k (drop s b)
          (omega (arith, length-drop s b, h.size, h.capacity)) in
      let after : List ℕ = drop (length msg) (drop s b) in
      let whole : List ℕ = take s b ++ (msg ++ after) in
      let same : whole ≡ (bytes ++ msg) ++ after =
        rw h.front (sym (append_assoc bytes msg after)) in
      let size : s + length msg ≡ length (bytes ++ msg) =
        omega (arith, h.size, length-append bytes msg) in
      let front : take (s + length msg) whole ≡ bytes ++ msg =
        rw (size, same) (take-append_length (bytes ++ msg) after) in
      (
        record { buffer_size = mp.buffer_size; buff = some whole; size = s + length msg },
        rw e1 (rw e2),
        refl,
        record {
          size = size;
          front = front;
          written = front;
          capacity = omega (
            arith,
            length-append (take s b) (msg ++ after),
            length-append msg after,
            length-take s b,
            length-drop s b,
            length-drop (length msg) (drop s b),
            h.size,
            h.capacity,
          );
        },
      )

  merge_all-Holds :
      (mp : MergePacket) (bytes : List ℕ) (ps : List Packet)
      → Holds mp bytes
      → All (IsPacket json) ps
      → length bytes + length (messages ps) ≤ mp.buffer_size
      → (mq : MergePacket) × (merge_all json ps mp ≡ ok mq) × Holds mq (bytes ++ messages ps)
  unfolding merge_all messages
  merge_all-Holds mp bytes [] h k room = (mp, refl, subst (Holds mp) (sym (append-nil bytes)) h)
  merge_all-Holds mp bytes (p ∷ ps) h k room =
      let msg = packet_bytes json p in
      let (mq, e, same, held) =
        merge-Holds mp bytes p h k.0 (omega (arith, length-append msg (messages ps))) in
      let (mr, e', held') =
        merge_all-Holds mq (bytes ++ msg) ps held k.1
          (omega (arith, length-append msg (messages ps), length-append bytes msg)) in
      (mr, rw e e', subst (Holds mr) (append_assoc bytes msg (messages ps)) held')

  -- A merge packet that is empty, new or reset, takes packets one after the other as long as their
  -- messages fit its buffer. Len is then the length of the messages, and from the bytes that
  -- WriteTo writes Unpack gives the same packets in the same order, but a PingPacket for each
  -- ShutdownPacket, with no byte left. No packet is a LogPacket or the mock fakePacket, the fields of
  -- each fit and its size fits uint32.
  pub merge_all-UnpacksTo :
      (mp : MergePacket) (ps : List Packet)
      → Holds mp []
      → All (IsPacket json) ps
      → length (messages ps) ≤ mp.buffer_size
      → (mq : MergePacket) × (merge_all json ps mp ≡ ok mq)
        × (len mq ≡ length (messages ps))
        × UnpacksTo ps (written mq)
  unfolding len
  merge_all-UnpacksTo mp ps h k room =
      let (mq, e, held) = merge_all-Holds mp [] ps h k (omega arith) in
      (mq, e, held.size, subst (UnpacksTo ps) (sym held.written) (messages-UnpacksTo ps k))

  pub length-symbol_packet :
      (d : SymbolsData)
      → length (packet_bytes json (symbol d)) ≡ size_symbols_data d + packet_header_size
  unfolding packet_bytes payload_bytes body_bytes
  length-symbol_packet d =
      let size = length-packet_bytes json (symbol d) in
      omega (arith, size, length-symbols_data_bytes d)

  pub marshal_large_packet-Holds :
      (d : SymbolsData)
      → IsPacket json (symbol d)
      → (mq : MergePacket) × (marshal_large_packet json (symbol d) ≡ ok mq)
        × (mq.buffer_size ≡ length (packet_bytes json (symbol d)))
        × Holds mq (packet_bytes json (symbol d))
  unfolding marshal_large_packet packet_size
  marshal_large_packet-Holds d h =
      let n = size_symbols_data d + packet_header_size in
      let size = length-symbol_packet d in
      let (mq, e, same, held) =
        merge-Holds (new_merge_packet n) [] (symbol d) (new_merge_packet-Holds n) h (omega arith) in
      (mq, e, same ∙ sym size, held)

  -- marshalLargePacket: a symbol packet whose size fits uint32 is marshalled without a panic, in a
  -- buffer of exactly the size of its message, and what is written is unpacked to that packet.
  pub marshal_large_packet-UnpacksTo :
      (d : SymbolsData)
      → IsPacket json (symbol d)
      → (mq : MergePacket) × (marshal_large_packet json (symbol d) ≡ ok mq)
        × (len mq ≡ mq.buffer_size)
        × UnpacksTo (symbol d ∷ []) (written mq)
  unfolding len
  marshal_large_packet-UnpacksTo d h =
      let (mq, e, same, held) = marshal_large_packet-Holds d h in
      (
        mq,
        e,
        omega (arith, held.size),
        subst (UnpacksTo (symbol d ∷ []))
            (append-nil (packet_bytes json (symbol d)) ∙ sym held.written)
            (unfold messages in messages-UnpacksTo (symbol d ∷ []) (h, tt)),
      )

after_write-Holds :
    {E : Type 0} (error : Option E) (p : MergePacket) (bytes : List ℕ)
    → Holds p bytes
    → Holds (elim error [ none ↦ reset p | some e ↦ p ]) (elim error [ none ↦ [] | some e ↦ bytes ])
after_write-Holds none p bytes h = reset-Holds p bytes h
after_write-Holds (some e) p bytes h = h

-- After WriteTo a merge packet is empty where the writer did not fail, and else it still holds
-- the messages; the writer was given these and no other bytes.
pub write_to-Holds :
    {E : Type 0} (w : List ℕ → ℕ × Option E) (p : MergePacket) (bytes : List ℕ)
    → Holds p bytes
    → (write_to w p ≡ (elim (w bytes).1 [ none ↦ reset p | some e ↦ p ], w bytes))
      × Holds (write_to w p).0 (elim (w bytes).1 [ none ↦ [] | some e ↦ bytes ])
unfolding write_to
write_to-Holds w p bytes h = (rw h.written, rw h.written (after_write-Holds (w bytes).1 p bytes h))
