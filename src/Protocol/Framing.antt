-- ===== src/Protocol/Framing.antt =====
-- PackToByteSlice and Unpack are inverse, and a message that is cut short waits for the rest.
use goapptrace.Base.{
  ℕ, ◌+◌, ◌-◌, ◌%◌, ◌^◌, ◌≤◌, ◌<◌, ◌≡◌, ◌∙◌, arith, List, [], ◌∷◌, ◌++◌, append_assoc, append-nil,
  true, false, ok, Outcome, ltb, leb, lt→ltb, le→leb, le→not_ltb, leb→le, not_leb→lt, Bool-cases,
  inl, inr, take-append_length, take-append_beyond, take-append_within, ap, length, length-append,
  take, drop, length-take, length-drop, drop-append_length, drop-take, drop-drop,
}
use goapptrace.Encoding.Slices.{Writes, Reads, &>-Writes, slice_from, >>=-Reads}
use goapptrace.Encoding.Buildin.{marshal_uint32, unmarshal_uint32, unmarshal_uint8}
use goapptrace.Encoding.Buildin.Format.{
  uint32_bytes, length-uint32_bytes, marshal_uint32-Writes, unmarshal_uint32-Reads,
  marshal_uint8-Writes, unmarshal_uint8-Reads,
}
use native.Mathlib.Nat.{add_comm}
use goapptrace.Protocol.{Json, Packet, detect_packet_type}
use goapptrace.Protocol.Bodies.{
  IsSendable, received, body_bytes, marshal_packet-Writes, unmarshal_packet-Reads,
}
use goapptrace.Protocol.Proto.{
  incomplete, unpacked, marshal_payload, pack_to_byte_slice, unmarshal_payload, unpack,
}

module _ (json : Json) where
  unfoldable pub payload_bytes : Packet → List ℕ
  payload_bytes p = (detect_packet_type p ∷ []) ++ body_bytes json p

  -- A whole message.
  unfoldable pub packet_bytes : Packet → List ℕ
  packet_bytes p = uint32_bytes (length (payload_bytes p)) ++ payload_bytes p

  -- The size field can hold the size.
  abbrev pub IsPacket : Packet → Type 0
  IsPacket p = IsSendable json p × (length (payload_bytes p) + 4 < 2 ^ 32)

  marshal_payload-Writes :
      (p : Packet) → IsSendable json p → Writes (marshal_payload json p) (payload_bytes p)
  unfolding marshal_payload payload_bytes
  marshal_payload-Writes p h =
      &>-Writes _ _ (detect_packet_type p ∷ []) _ (marshal_uint8-Writes (detect_packet_type p))
        (marshal_packet-Writes json p h)

  unmarshal_payload-Reads :
      (p : Packet)
      → IsSendable json p
      → Reads (unmarshal_payload json) (received p) (payload_bytes p)
  unfolding unmarshal_payload payload_bytes
  unmarshal_payload-Reads p h =
      let (kind, created, reads) = unmarshal_packet-Reads json p h in
      >>=-Reads unmarshal_uint8 _ (detect_packet_type p) (received p) (detect_packet_type p ∷ []) _
        (unmarshal_uint8-Reads (detect_packet_type p)) (λ rest. rw created (reads rest))

  pub length-packet_bytes : (p : Packet) → length (packet_bytes p) ≡ length (payload_bytes p) + 4
  unfolding packet_bytes
  length-packet_bytes p = omega (
    arith,
    length-append (uint32_bytes (length (payload_bytes p))) (payload_bytes p),
    length-uint32_bytes (length (payload_bytes p)),
  )

  packet_layout :
      (p : Packet) (buf : List ℕ)
      → let n = length (payload_bytes p) in
        ◌≡◌ {A = Outcome (List ℕ × ℕ)}
          (ok (uint32_bytes n ++ (payload_bytes p ++ drop n (drop 4 buf)), n + 4))
          (ok (packet_bytes p ++ drop (n + 4) buf, n + 4))
  unfolding packet_bytes
  packet_layout p buf =
      let n = length (payload_bytes p) in rw (append_assoc, drop-drop, add_comm 4 n)

  pub pack_to_byte_slice-Writes :
      (p : Packet) → IsPacket p → Writes (pack_to_byte_slice json p) (packet_bytes p)
  unfolding pack_to_byte_slice slice_from
  pack_to_byte_slice-Writes p h buf room =
      let n = length (payload_bytes p) in
      let size = length-packet_bytes p in
      let four = length-uint32_bytes n in
      let e1 : leb 4 (length buf) ≡ true = le→leb 4 (length buf) (omega arith) in
      let e2 : marshal_payload json p (drop 4 buf)
          ≡ ok (payload_bytes p ++ drop n (drop 4 buf), n) =
        marshal_payload-Writes p h.0 (drop 4 buf) (omega (arith, length-drop 4 buf)) in
      let e3 : n % 2 ^ 32 ≡ n = omega arith in
      let e4 : marshal_uint32 n (take 4 buf) ≡ ok (uint32_bytes n, 4) =
        marshal_uint32-Writes n (take 4 buf) (omega (arith, length-take 4 buf))
        ∙ rw (four, drop-take 4 buf, append-nil) in
      let e5 : (n + 4) % 2 ^ 32 ≡ n + 4 = omega arith in
      rw (e1, e2, e3) (rw e4 (rw (e5, size) (packet_layout p buf)))

  pub unpack-packet_bytes :
      (p : Packet) (rest : List ℕ)
      → IsPacket p
      → unpack json (packet_bytes p ++ rest) ≡ unpacked (received p) (length (packet_bytes p))
  unfolding unpack
  unpack-packet_bytes p rest h =
      let n = length (payload_bytes p) in
      let tail : List ℕ = payload_bytes p ++ rest in
      let four = length-uint32_bytes n in
      let whole : packet_bytes p ++ rest ≡ uint32_bytes n ++ tail =
        unfold packet_bytes in append_assoc (uint32_bytes n) (payload_bytes p) rest in
      let e1 : ltb (length (uint32_bytes n ++ tail)) 4 ≡ false =
        le→not_ltb _ 4 (omega (arith, length-append (uint32_bytes n) tail, four)) in
      let e2 : unmarshal_uint32 (uint32_bytes n ++ tail) ≡ ok (n, 4) =
        unmarshal_uint32-Reads n (omega arith) tail ∙ rw four in
      let e3 : drop 4 (uint32_bytes n ++ tail) ≡ tail =
        rw four at (drop-append_length (uint32_bytes n) tail) in
      let e4 : ltb (length tail) n ≡ false =
        le→not_ltb _ n (omega (arith, length-append (payload_bytes p) rest)) in
      rw (whole, e1, e2)
        (rw (e3, e4, unmarshal_payload-Reads p h.0 rest) (rw (add_comm 4 n, length-packet_bytes p)))

  unpack_header_cut : (b : List ℕ) → length b < 4 → unpack json b ≡ incomplete
  unfolding unpack
  unpack_header_cut b h = rw (lt→ltb (length b) 4 h)

  unpack-short :
      (p : Packet) (k : ℕ)
      → IsPacket p
      → 4 ≤ k
      → k < length (packet_bytes p)
      → unpack json (take k (packet_bytes p)) ≡ incomplete
  unfolding unpack
  unpack-short p k h four k<n =
      let n = length (payload_bytes p) in
      let tail : List ℕ = take (k - 4) (payload_bytes p) in
      let size = length-uint32_bytes n in
      let whole : take k (packet_bytes p) ≡ uint32_bytes n ++ tail =
        unfold packet_bytes in
        rw size at (take-append_beyond k (uint32_bytes n) (payload_bytes p) (omega arith)) in
      let e1 : ltb (length (uint32_bytes n ++ tail)) 4 ≡ false =
        le→not_ltb _ 4 (omega (arith, length-append (uint32_bytes n) tail)) in
      let e2 : unmarshal_uint32 (uint32_bytes n ++ tail) ≡ ok (n, 4) =
        unmarshal_uint32-Reads n (omega arith) tail ∙ rw size in
      let e3 : drop 4 (uint32_bytes n ++ tail) ≡ tail =
        rw size at (drop-append_length (uint32_bytes n) tail) in
      let e4 : ltb (length tail) n ≡ true =
        lt→ltb _ n (omega (arith, length-take (k - 4) (payload_bytes p), length-packet_bytes p)) in
      rw (whole, e1, e2) (rw (e3, e4))

  unpack-cut :
      (p : Packet) (k : ℕ)
      → IsPacket p
      → k < length (packet_bytes p)
      → unpack json (take k (packet_bytes p)) ≡ incomplete
  unpack-cut p k h k<n = elim (Bool-cases (leb 4 k)) [
    | inl e ↦ unpack-short p k h (leb→le 4 k e) k<n
    | inr e ↦
        unpack_header_cut (take k (packet_bytes p))
          (omega (arith, length-take k (packet_bytes p), not_leb→lt 4 k e))
  ]

  -- PackToByteSlice writes a message of n bytes into a buffer that has the room, and from fewer than
  -- n of these, cut at any point of the size or the payload, Unpack asks for more, without an error. The
  -- packet is none of LogPacket and the mock fakePacket, its strings, lists and numbers fit their
  -- fields, and its size fits uint32.
  pub unpack-cut_packet :
      (p : Packet) (buf : List ℕ)
      → IsPacket p
      → length (packet_bytes p) ≤ length buf
      → (out : List ℕ) × (n : ℕ) × (pack_to_byte_slice json p buf ≡ ok (out, n))
        × ((k : ℕ) → k < n → unpack json (take k out) ≡ incomplete)
  unpack-cut_packet p buf h room =
      let n = length (packet_bytes p) in
      (
        packet_bytes p ++ drop n buf,
        n,
        pack_to_byte_slice-Writes p h buf room,
        λ k short.
            ap (unpack json) (take-append_within k (packet_bytes p) (drop n buf) (omega arith))
            ∙ unpack-cut p k h short,
      )

  -- PackToByteSlice writes a message of n bytes into a buffer that has the room, leaves the rest of
  -- the buffer alone, and Unpack, on those n bytes and whatever follows them, gives the packet
  -- back, but a PingPacket for a ShutdownPacket, and takes n bytes. The packet is none of LogPacket
  -- and the mock fakePacket, its strings, lists and numbers fit their fields, and its size fits uint32.
  pub pack_to_byte_slice-unpack :
      (p : Packet) (buf rest : List ℕ)
      → IsPacket p
      → length (packet_bytes p) ≤ length buf
      → (out : List ℕ) × let n = length (packet_bytes p) in
          (pack_to_byte_slice json p buf ≡ ok (out, n))
          × (drop n out ≡ drop n buf)
          × (unpack json (take n out ++ rest) ≡ unpacked (received p) n)
  pack_to_byte_slice-unpack p buf rest h room =
      let n = length (packet_bytes p) in
      let back : unpack json (take n (packet_bytes p ++ drop n buf) ++ rest)
          ≡ unpacked (received p) n =
        rw (take-append_length (packet_bytes p) (drop n buf)) (unpack-packet_bytes p rest h) in
      (
        packet_bytes p ++ drop n buf,
        (
          pack_to_byte_slice-Writes p h buf room,
          drop-append_length (packet_bytes p) (drop n buf),
          back,
        ),
      )
