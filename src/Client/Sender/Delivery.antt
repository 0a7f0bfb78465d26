-- ===== src/Client/Sender/Delivery.antt =====
-- What the merge sender hands to the connection is the messages of the packets it was given, all of
-- them and in their order.
use goapptrace.Base.{
  All, All-append, ℕ, ◌+◌, ◌≤◌, ◌<◌, ◌≡◌, refl, sym, ap, subst, ◌∙◌, arith, true, false, List, [],
  ◌∷◌, ◌++◌, append_assoc, append-nil, Option, none, some, ok, leb, ◌==◌, length, Bool-cases, inl,
  inr, not_leb→lt, ==_iff,
}
use goapptrace.Types.{SymbolsData}
use goapptrace.Protocol.{Json, Packet, symbol}
use goapptrace.Protocol.Framing.{IsPacket, packet_bytes}
use goapptrace.Protocol.Merge.{MergePacket, reset, len, written, merge}
use goapptrace.Protocol.Merge.Batches.{
  Holds, reset-Holds, messages, merge-Holds, marshal_large_packet-Holds,
}
use goapptrace.Client.Sender.{
  MergeSender, margin, building, conn_send, keep_or_send, flush, send, refresh, send_large,
}

-- The bytes of the packets that the connection took.
abbrev pub stream : List MergePacket → List ℕ
stream [] = []
stream (mp ∷ mps) = written mp ++ stream mps

abbrev pub pending : Option MergePacket → List ℕ
pending none = []
pending (some mp) = written mp

stream-append : (xs ys : List MergePacket) → stream (xs ++ ys) ≡ stream xs ++ stream ys
stream-append [] ys = refl
stream-append (x ∷ xs) ys = rw (stream-append xs ys, append_assoc)

length_zero : (xs : List ℕ) → length xs ≡ 0 → xs ≡ []
length_zero [] e = refl
length_zero (x ∷ xs) e = absurd (omega arith)

-- A packet with room for one message more than it may wait with.
abbrev pub IsBuffer : ℕ → MergePacket → Type 0
IsBuffer size mp = Holds mp (written mp) × (size + margin ≤ mp.buffer_size)

abbrev pub IsBuilding : ℕ → Option MergePacket → Type 0
IsBuilding size none = Unit {0}
IsBuilding size (some mp) = IsBuffer size mp × (len mp < size)

-- The sender runs, and has passed on or keeps the messages of `ps`; what it has sent may be in the pool.
module _ (json : Json) where
  pub record Delivers (ms : MergeSender) (ps : List Packet) : Type 0 where
    pub bytes : stream ms.sent ++ pending ms.merge_pkt ≡ messages json ps
    pub waiting : IsBuilding ms.max_small_packet_size ms.merge_pkt
    pub pooled : All (IsBuffer ms.max_small_packet_size) ms.sent

  abbrev pub IsSmall : Packet → Type 0
  IsSmall p = IsPacket json p × (length (packet_bytes json p) ≤ margin)

  -- A message of symbols that is not smaller than the buffers that New makes.
  abbrev pub IsLarge : ℕ → SymbolsData → Type 0
  IsLarge size d =
      IsPacket json (symbol d) × (size + margin ≤ length (packet_bytes json (symbol d)))

  messages-append :
      (ps qs : List Packet) → messages json (ps ++ qs) ≡ messages json ps ++ messages json qs
  unfolding messages
  messages-append [] qs = refl
  messages-append (p ∷ ps) qs = rw (messages-append ps qs, append_assoc)

  messages-snoc :
      (ps : List Packet) (p : Packet)
      → messages json (ps ++ (p ∷ [])) ≡ messages json ps ++ packet_bytes json p
  messages-snoc ps p =
      messages-append ps (p ∷ []) ∙ unfold messages in rw (append-nil (packet_bytes json p))

  -- The packet that takes the next message.
  building-IsBuffer :
      (pooled : MergePacket) (o : Option MergePacket) (size : ℕ)
      → IsBuilding size o
      → IsBuffer size pooled
      → IsBuffer size (building json pooled o)
        × (written (building json pooled o) ≡ pending o)
        × (length (pending o) ≤ size)
  unfolding len
  building-IsBuffer pooled (some mp) size w h = (w.0, refl, omega (arith, w.0.0.size, w.1))
  building-IsBuffer pooled none size w h =
      let empty = reset-Holds pooled _ h.0 in
      (
        (subst (Holds (reset pooled)) (sym empty.written) empty, unfold reset in h.1),
        empty.written,
        omega arith,
      )

  empty-written : (mp : MergePacket) → Holds mp (written mp) → len mp == 0 ≡ true → written mp ≡ []
  unfolding len
  empty-written mp h e = length_zero (written mp) (sym h.size ∙ (==_iff mp.size 0).0 e)

  -- A flush passes on what is pending.
  pub flush-Delivers :
      (o : Option MergePacket) (ms : MergeSender) (ps : List Packet)
      → ms.merge_pkt ≡ o
      → Delivers ms ps
      → Delivers (flush json true o ms).0 ps
        × (pending (flush json true o ms).0.merge_pkt ≡ [])
        × ((flush json true o ms).1 ≡ true)
        × ((flush json true o ms).0.max_small_packet_size ≡ ms.max_small_packet_size)
        × ((flush json true o ms).0.stopped ≡ ms.stopped)
  flush-Delivers none ms ps e h = (h, rw e, refl, refl, refl)
  flush-Delivers (some mp) ms ps e h =
      let waits : IsBuilding ms.max_small_packet_size (some mp) =
        subst (IsBuilding ms.max_small_packet_size) e h.waiting in
      elim (Bool-cases (len mp == 0)) [
        | inl z ↦ rw z (h, rw e (empty-written mp waits.0.0 z), refl, refl, refl)
        | inr z ↦ rw z (
          record {
            bytes =
                append-nil (stream (ms.sent ++ (mp ∷ [])))
                ∙ stream-append ms.sent (mp ∷ [])
                ∙ ap (◌++◌ (stream ms.sent)) (append-nil (written mp))
                ∙ sym (ap (λ o. stream ms.sent ++ pending o) e)
                ∙ h.bytes;
            waiting = tt;
            pooled =
                All-append (IsBuffer ms.max_small_packet_size) ms.sent (mp ∷ []) h.pooled
                  (waits.0, tt);
          },
          refl,
          refl,
          refl,
          refl,
        )
      ]

  -- The packet that has taken a message waits or is sent, and the message is in the stream or waits.
  keep_or_send-Delivers :
      (mq : MergePacket) (ms : MergeSender) (ps : List Packet) (p : Packet)
      → Delivers ms ps
      → Holds mq (pending ms.merge_pkt ++ packet_bytes json p)
      → ms.max_small_packet_size + margin ≤ mq.buffer_size
      → let r = keep_or_send json true mq ms in
        Delivers r.0 (ps ++ (p ∷ []))
        × (r.1 ≡ true)
        × (r.0.max_small_packet_size ≡ ms.max_small_packet_size)
        × (r.0.stopped ≡ ms.stopped)
  unfolding len
  keep_or_send-Delivers mq ms ps p h held size =
      let msg = packet_bytes json p in
      let all : stream ms.sent ++ written mq ≡ messages json (ps ++ (p ∷ [])) = rw (
        held.written,
        messages-snoc ps p,
        ← append_assoc (stream ms.sent) (pending ms.merge_pkt) msg,
        h.bytes,
      ) in
      let whole : IsBuffer ms.max_small_packet_size mq =
        (subst (Holds mq) (sym held.written) held, size) in
      elim (Bool-cases (leb ms.max_small_packet_size mq.size)) [
        | inl full ↦ rw full (
          record {
            bytes =
                append-nil (stream (ms.sent ++ (mq ∷ [])))
                ∙ stream-append ms.sent (mq ∷ [])
                ∙ ap (◌++◌ (stream ms.sent)) (append-nil (written mq))
                ∙ all;
            waiting = tt;
            pooled =
                All-append (IsBuffer ms.max_small_packet_size) ms.sent (mq ∷ []) h.pooled
                  (whole, tt);
          },
          refl,
          refl,
          refl,
        )
        | inr short ↦ rw short (
          record {
            bytes = all;
            pooled = h.pooled;
            waiting = (whole, not_leb→lt ms.max_small_packet_size mq.size short);
          },
          refl,
          refl,
          refl,
        )
      ]

  send-ok :
      (p : Packet) (pooled : MergePacket) (ms : MergeSender) (mq : MergePacket)
      → ms.stopped ≡ false
      → merge json p (building json pooled ms.merge_pkt) ≡ ok mq
      → send json p pooled true ms ≡ ok (keep_or_send json true mq ms)
  unfolding send
  send-ok p pooled ms mq run e = simp (run, e)

  pub send-Delivers :
      (p : Packet) (pooled : MergePacket) (ms : MergeSender) (ps : List Packet)
      → Delivers ms ps
      → IsSmall p
      → IsBuffer ms.max_small_packet_size pooled
      → ms.stopped ≡ false
      → (mt : MergeSender) × (send json p pooled true ms ≡ ok (mt, true))
        × Delivers mt (ps ++ (p ∷ []))
        × (mt.max_small_packet_size ≡ ms.max_small_packet_size)
        × (mt.stopped ≡ false)
  send-Delivers p pooled ms ps h small pool run =
      let b = building json pooled ms.merge_pkt in
      let (buf, before, room) =
        building-IsBuffer pooled ms.merge_pkt ms.max_small_packet_size h.waiting pool in
      let (mq, e, same, held) =
        merge-Holds json b (written b) p buf.0 small.0
          (omega (arith, ap length before, buf.1, small.1)) in
      let r = keep_or_send json true mq ms in
      let (all, success, size, runs) =
        keep_or_send-Delivers mq ms ps p h
          (subst (λ x. Holds mq (x ++ packet_bytes json p)) before held)
          (omega (arith, same, buf.1)) in
      (r.0, send-ok p pooled ms mq run e ∙ (ap (λ x. ok (r.0, x)) success), all, size, runs ∙ run)

  pub refresh-Delivers :
      (ms : MergeSender) (ps : List Packet)
      → Delivers ms ps
      → ms.stopped ≡ false
      → (mt : MergeSender) × (refresh json true ms ≡ ok (mt, true))
        × Delivers mt ps
        × (pending mt.merge_pkt ≡ [])
        × (mt.max_small_packet_size ≡ ms.max_small_packet_size)
        × (mt.stopped ≡ false)
  unfolding refresh
  refresh-Delivers ms ps h run =
      let r = flush json true ms.merge_pkt ms in
      let (all, none_left, success, size, runs) = flush-Delivers ms.merge_pkt ms ps refl h in
      (r.0, simp run (ap (λ x. ok (r.0, x)) success), all, none_left, size, runs ∙ run)

  pub send_large-Delivers :
      (d : SymbolsData) (ms : MergeSender) (ps : List Packet)
      → Delivers ms ps
      → IsLarge ms.max_small_packet_size d
      → ms.stopped ≡ false
      → (mt : MergeSender) × (send_large json (symbol d) true true ms ≡ ok (mt, true))
        × Delivers mt (ps ++ (symbol d ∷ []))
        × (mt.max_small_packet_size ≡ ms.max_small_packet_size)
        × (mt.stopped ≡ false)
  unfolding send_large
  send_large-Delivers d ms ps h k run =
      let (mt, e, all, none_left, size, runs) = refresh-Delivers ms ps h run in
      let (mq, e', room, held) = marshal_large_packet-Holds json d k.0 in
      let r = conn_send true mq mt in
      let before : stream mt.sent ≡ messages json ps =
        sym (append-nil (stream mt.sent))
        ∙ sym (ap (◌++◌ (stream mt.sent)) none_left)
        ∙ all.bytes in
      (
        r.0,
        rw (e, e'),
        record {
          bytes = rw (
            none_left,
            append-nil,
            stream-append mt.sent (mq ∷ []),
            before,
            messages-snoc ps (symbol d),
            append-nil (written mq),
            held.written,
          );
          waiting = all.waiting;
          pooled =
              All-append (IsBuffer mt.max_small_packet_size) mt.sent (mq ∷ []) all.pooled (
                (subst (Holds mq) (sym held.written) held, rw size (omega (arith, room, k.1))),
                tt,
              );
        },
        size,
        runs,
      )
