-- ===== src/Client/Sender/Runs.antt =====
-- Runs of the merge sender, up to the flush that stops it.
use goapptrace.Base.{
  zero, suc, ◌+◌, arith, Option, some, get_elem?, ℕ, ◌≡◌, refl, sym, ap, subst, ◌∙◌, Bool, true,
  false, List, [], ◌∷◌, ◌++◌, append_assoc, append-nil, none, Outcome, ok, ◌>>=◌, All,
}
use goapptrace.Types.{SymbolsData}
use goapptrace.Protocol.{Json, Packet, symbol}
use goapptrace.Protocol.Framing.{IsPacket}
use goapptrace.Protocol.Merge.{MergePacket, written}
use goapptrace.Protocol.Merge.Batches.{
  new_merge_packet-Holds, messages, UnpacksTo, messages-UnpacksTo,
}
use goapptrace.Client.Sender.{
  MergeSender, margin, pool_new, with_stopped, flush, send, refresh, send_large, refresh_last,
}
use goapptrace.Client.Sender.Delivery.{
  stream, IsBuffer, Delivers, IsSmall, IsLarge, send-Delivers, refresh-Delivers,
  send_large-Delivers, flush-Delivers,
}

-- A call of Send, with what the pool would give, of SendLarge on a symbol packet, or of Refresh. The
-- pool gives a packet that New makes, or one that was sent, as the `i`-th or not at all, and that OnEvent
-- has put back.
pub data Op : Type 0 where
  small_op : Packet → Option ℕ → Op
  large_op : SymbolsData → Op
  refresh_op : Op

abbrev pub init : ℕ → MergeSender
init n = record { max_small_packet_size = n; merge_pkt = none; stopped = false; sent = [] }

-- The packets of the calls.
unfoldable pub packets : List Op → List Packet
packets [] = []
packets (small_op p pick ∷ ops) = p ∷ packets ops
packets (large_op d ∷ ops) = symbol d ∷ packets ops
packets (refresh_op ∷ ops) = packets ops

abbrev pub or_new : MergeSender → Option MergePacket → MergePacket
or_new ms none = pool_new ms
or_new ms (some mp) = mp

abbrev pub from_pool : Option ℕ → MergeSender → MergePacket
from_pool none ms = pool_new ms
from_pool (some i) ms = or_new ms (get_elem? ms.sent i)

pool_new-IsBuffer : (ms : MergeSender) → IsBuffer ms.max_small_packet_size (pool_new ms)
unfolding written
pool_new-IsBuffer ms = (new_merge_packet-Holds (ms.max_small_packet_size + margin), omega arith)

module _ (json : Json) where
  -- Conn.Send takes every packet.
  abbrev pub step : Op → MergeSender → Outcome (MergeSender × Bool)
  step (small_op p pick) ms = send json p (from_pool pick ms) true ms
  step (large_op d) ms = send_large json (symbol d) true true ms
  step refresh_op ms = refresh json true ms

  unfoldable pub run : List Op → MergeSender → Outcome MergeSender
  run [] ms = ok ms
  run (op ∷ ops) ms = step op ms >>= λ r. run ops r.0

  -- What Send and SendLarge take: a packet whose message has at most 2048 bytes, and symbols whose
  -- message has at least as many bytes as the buffers that New makes and whose size fits uint32.
  abbrev pub IsOp : ℕ → Op → Type 0
  IsOp size (small_op p pick) = IsSmall json p
  IsOp size (large_op d) = IsLarge json size d
  IsOp size refresh_op = Unit {0}

  abbrev pub IsRun : ℕ → List Op → Type 0
  IsRun size [] = Unit {0}
  IsRun size (op ∷ ops) = IsOp size op × IsRun size ops

  new_or-IsBuffer :
      (ms : MergeSender) (i : ℕ) (mps : List MergePacket)
      → All (IsBuffer ms.max_small_packet_size) mps
      → IsBuffer ms.max_small_packet_size (or_new ms (get_elem? mps i))
  new_or-IsBuffer ms i [] all = pool_new-IsBuffer ms
  new_or-IsBuffer ms zero (mp ∷ mps) (here, all) = here
  new_or-IsBuffer ms (suc i) (mp ∷ mps) (here, all) = new_or-IsBuffer ms i mps all

  from_pool-IsBuffer :
      (pick : Option ℕ) (ms : MergeSender) (ps : List Packet)
      → Delivers json ms ps
      → IsBuffer ms.max_small_packet_size (from_pool pick ms)
  from_pool-IsBuffer none ms ps h = pool_new-IsBuffer ms
  from_pool-IsBuffer (some i) ms ps h = new_or-IsBuffer ms i ms.sent h.pooled

  step-Delivers :
      (op : Op) (ops : List Op) (ms : MergeSender) (ps : List Packet)
      → Delivers json ms ps
      → IsOp ms.max_small_packet_size op
      → ms.stopped ≡ false
      → (mt : MergeSender) × (qs : List Packet) × (step op ms ≡ ok (mt, true))
        × Delivers json mt qs
        × (qs ++ packets ops ≡ ps ++ packets (op ∷ ops))
        × (mt.max_small_packet_size ≡ ms.max_small_packet_size)
        × (mt.stopped ≡ false)
  unfolding packets
  step-Delivers (small_op p pick) ops ms ps h k r =
      let (mt, e, all, size, runs) =
        send-Delivers json p (from_pool pick ms) ms ps h k (from_pool-IsBuffer pick ms ps h) r in
      (mt, ps ++ (p ∷ []), e, all, append_assoc ps (p ∷ []) (packets ops), size, runs)
  step-Delivers (large_op d) ops ms ps h k r =
      let (mt, e, all, size, runs) = send_large-Delivers json d ms ps h k r in
      (mt, ps ++ (symbol d ∷ []), e, all, append_assoc ps (symbol d ∷ []) (packets ops), size, runs)
  step-Delivers refresh_op ops ms ps h k r =
      let (mt, e, all, none_left, size, runs) = refresh-Delivers json ms ps h r in
      (mt, ps, e, all, refl, size, runs)

  run-Delivers :
      (ops : List Op) (ms : MergeSender) (ps : List Packet)
      → Delivers json ms ps
      → IsRun ms.max_small_packet_size ops
      → ms.stopped ≡ false
      → (mt : MergeSender) × (run ops ms ≡ ok mt)
        × Delivers json mt (ps ++ packets ops)
        × (mt.stopped ≡ false)
  unfolding run
  run-Delivers [] ms ps h k r =
      (ms, refl, unfold packets in subst (Delivers json ms) (sym (append-nil ps)) h, r)
  run-Delivers (op ∷ ops) ms ps h k r =
      let (mt, qs, e, all, same, size, runs) = step-Delivers op ops ms ps h k.0 r in
      let (mu, e', all', runs') =
        run-Delivers ops mt qs all (subst (λ n. IsRun n ops) (sym size) k.1) runs in
      (mu, rw e e', subst (Delivers json mu) same all', runs')

  IsRun-IsPacket : (size : ℕ) (ops : List Op) → IsRun size ops → All (IsPacket json) (packets ops)
  unfolding packets
  IsRun-IsPacket size [] h = tt
  IsRun-IsPacket size (small_op p pick ∷ ops) h = (h.0.0, IsRun-IsPacket size ops h.1)
  IsRun-IsPacket size (large_op d ∷ ops) h = (h.0.0, IsRun-IsPacket size ops h.1)
  IsRun-IsPacket size (refresh_op ∷ ops) h = IsRun-IsPacket size ops h.1

  refresh_last-UnpacksTo :
      (ms : MergeSender) (ps : List Packet)
      → All (IsPacket json) ps
      → Delivers json ms ps
      → UnpacksTo json ps (stream (refresh_last json true ms).0.sent)
  unfolding refresh_last
  refresh_last-UnpacksTo ms ps h all =
      let last = (flush json true ms.merge_pkt (with_stopped ms)).0 in
      let (done, none_left, success, size, stops) =
        flush-Delivers json ms.merge_pkt (with_stopped ms) ps refl
          (record { bytes = all.bytes; waiting = all.waiting; pooled = all.pooled }) in
      let whole : messages json ps ≡ stream last.sent =
        sym done.bytes ∙ ap (◌++◌ (stream last.sent)) none_left ∙ append-nil (stream last.sent) in
      subst (UnpacksTo json ps) whole (messages-UnpacksTo json ps h)

  -- A sender that starts with no packet, is given packets by Send, SendLarge and Refresh in any
  -- order and is then stopped, and whose connection takes all it is handed, where the pool gives new
  -- packets or any that were sent: no call panics, and from the bytes that the connection was handed,
  -- Unpack gives every packet, in the order of the calls, but a PingPacket for each ShutdownPacket, and
  -- nothing else. The messages of Send have at most 2048 bytes; those of SendLarge are symbols, of at
  -- least MaxSmallPacketSize + 2048 bytes, since their packets go back to the pool with a buffer of that
  -- size. MaxSmallPacketSize is any number.
  pub run-UnpacksTo :
      (size : ℕ) (ops : List Op)
      → IsRun size ops
      → (mt : MergeSender) × (run ops (init size) ≡ ok mt)
        × UnpacksTo json (packets ops) (stream (refresh_last json true mt).0.sent)
  run-UnpacksTo size ops h =
      let start : Delivers json (init size) [] = record {
        bytes = unfold messages in refl;
        waiting = tt;
        pooled = tt;
      } in
      let (mt, e, all, runs) = run-Delivers ops (init size) [] start h refl in
      (mt, e, refresh_last-UnpacksTo mt (packets ops) (IsRun-IsPacket size ops h) all)
