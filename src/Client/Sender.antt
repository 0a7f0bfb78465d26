-- ===== src/Client/Sender.antt =====
-- tracer/protocol/client.go, mergeSender: packets are merged into one until it is large enough, or
-- until the next refresh. Its lock makes the operations atomic.
pub mod Delivery
pub mod Runs
use goapptrace.Base.{
  ℕ, ◌+◌, ◌<◌, ◌≡◌, Bool, true, false, List, [], ◌∷◌, ◌++◌, Option, none, some, Outcome, ok, panic,
  ◌>>=◌, leb, ◌==◌, if◌then◌else◌,
}
use goapptrace.Protocol.{Json, Packet}
use goapptrace.Protocol.Merge.{
  MergePacket, new_merge_packet, reset, len, merge, marshal_large_packet,
}

-- The packet being built, and whether RefreshWorker has ended. `sent` are the packets that Conn.Send
-- has taken, in their order.
pub record MergeSender : Type 0 where
  pub max_small_packet_size : ℕ
  pub merge_pkt : Option MergePacket
  pub stopped : Bool
  pub sent : List MergePacket

-- MergePacket's buffers are larger than MaxSmallPacketSize.
abbrev pub margin : ℕ
margin = 2048

-- The pool's New.
abbrev pub pool_new : MergeSender → MergePacket
pool_new ms = new_merge_packet (ms.max_small_packet_size + margin)

abbrev pub with_merge_pkt : Option MergePacket → MergeSender → MergeSender
with_merge_pkt p ms = record {
  max_small_packet_size = ms.max_small_packet_size;
  merge_pkt = p;
  stopped = ms.stopped;
  sent = ms.sent;
}

abbrev pub with_stopped : MergeSender → MergeSender
with_stopped ms = record {
  max_small_packet_size = ms.max_small_packet_size;
  merge_pkt = ms.merge_pkt;
  stopped = true;
  sent = ms.sent;
}

-- ms.Conn.Send(mp), which takes the packet where it returns no error.
abbrev pub conn_send : Bool → MergePacket → MergeSender → MergeSender × Bool
conn_send sends mp ms = (
  record {
    max_small_packet_size = ms.max_small_packet_size;
    merge_pkt = ms.merge_pkt;
    stopped = ms.stopped;
    sent = if sends then ms.sent ++ (mp ∷ []) else ms.sent;
  },
  sends,
)

-- The Boolean that an operation returns is whether its error is nil; `sends` is what Conn.Send
-- answers. `pooled` is whichever packet the pool gives where merge_pkt is nil: one that New made, or one
-- that was sent and that OnEvent has put back, of Send or of SendLarge, whose buffers may be smaller.
module _ (json : Json) where
  abbrev pub building : MergePacket → Option MergePacket → MergePacket
  building pooled none = reset pooled
  building pooled (some mp) = mp

  -- It waits for more, or is sent.
  abbrev pub keep_or_send : Bool → MergePacket → MergeSender → MergeSender × Bool
  keep_or_send sends mp ms =
      if leb ms.max_small_packet_size (len mp)
      then conn_send sends mp (with_merge_pkt none ms)
      else (with_merge_pkt (some mp) ms, true)

  unfoldable pub send : Packet → MergePacket → Bool → MergeSender → Outcome (MergeSender × Bool)
  send pkt pooled sends ms =
      if ms.stopped
      then panic
      else (merge json pkt (building pooled ms.merge_pkt) >>= λ mp. ok (keep_or_send sends mp ms))

  -- The body that refreshNolock and refreshLast share, on ms.mergePkt.
  abbrev pub flush : Bool → Option MergePacket → MergeSender → MergeSender × Bool
  flush sends none ms = (ms, true)
  flush sends (some mp) ms =
      if len mp == 0 then (ms, true) else conn_send sends mp (with_merge_pkt none ms)

  unfoldable pub refresh : Bool → MergeSender → Outcome (MergeSender × Bool)
  refresh sends ms = if ms.stopped then panic else ok (flush sends ms.merge_pkt ms)

  -- A panic of marshalLargePacket comes after the refresh.
  unfoldable pub send_large : Packet → Bool → Bool → MergeSender → Outcome (MergeSender × Bool)
  unfolding refresh
  send_large pkt sends sends_large ms = refresh sends ms >>= λ r.
      if r.1
      then (marshal_large_packet json pkt >>= λ mp. ok (conn_send sends_large mp r.0))
      else ok r

  unfoldable pub refresh_last : Bool → MergeSender → MergeSender × Bool
  refresh_last sends ms = flush sends ms.merge_pkt (with_stopped ms)
