-- ===== src/Encoding/Log.antt =====
-- tracer/encoding/log.go: the records of a trace.
pub mod Format
pub mod RoundTrip
use goapptrace.Base.{ℕ, ◌+◌, ◌*◌, List}
use goapptrace.Types.{Goroutine, FuncLog, RawFuncLog, max_stack_size}
use goapptrace.Encoding.Slices.{Marshal, Unmarshal, ◌&>◌, ◌>>=◌, map_unmarshal}
use goapptrace.Encoding.Buildin.{marshal_uintptr_slice, unmarshal_uintptr_slice}
use goapptrace.Encoding.Ids.{
  marshal_gid, unmarshal_gid, marshal_time, unmarshal_time, marshal_func_log_id,
  unmarshal_func_log_id, marshal_raw_func_log_id, unmarshal_raw_func_log_id, marshal_tag_name,
  unmarshal_tag_name, marshal_tx_id, unmarshal_tx_id,
}

unfoldable pub marshal_goroutine : Goroutine → Marshal
marshal_goroutine g = marshal_gid g.gid &> marshal_time g.start_time &> marshal_time g.end_time

unfoldable pub unmarshal_goroutine : Unmarshal Goroutine
unmarshal_goroutine = do
  gid ← unmarshal_gid
  start_time ← unmarshal_time
  map_unmarshal (λ end_time. record { gid = gid; start_time = start_time; end_time = end_time })
      unmarshal_time

unfoldable pub size_goroutine : ℕ
size_goroutine = 8 * 3

unfoldable pub marshal_func_log : FuncLog → Marshal
marshal_func_log f =
    marshal_func_log_id f.id
    &> marshal_time f.start_time
    &> marshal_time f.end_time
    &> marshal_func_log_id f.parent_id
    &> marshal_uintptr_slice f.frames
    &> marshal_gid f.gid

-- `cap` is the capacity of `f.Frames` in the record that the caller hands in.
unfoldable pub unmarshal_func_log : ℕ → Unmarshal FuncLog
unmarshal_func_log cap = do
  id ← unmarshal_func_log_id
  start_time ← unmarshal_time
  end_time ← unmarshal_time
  parent_id ← unmarshal_func_log_id
  frames ← unmarshal_uintptr_slice cap
  map_unmarshal
      (λ gid. record {
        id = id;
        start_time = start_time;
        end_time = end_time;
        parent_id = parent_id;
        frames = frames;
        gid = gid;
      })
      unmarshal_gid

unfoldable pub size_func_log : ℕ
size_func_log = 8 * 5 + 8 * (1 + max_stack_size)

unfoldable pub marshal_raw_func_log : RawFuncLog → Marshal
marshal_raw_func_log r =
    marshal_raw_func_log_id r.id
    &> marshal_tag_name r.tag
    &> marshal_time r.timestamp
    &> marshal_uintptr_slice r.frames
    &> marshal_gid r.gid
    &> marshal_tx_id r.txid

unfoldable pub unmarshal_raw_func_log : ℕ → Unmarshal RawFuncLog
unmarshal_raw_func_log cap = do
  id ← unmarshal_raw_func_log_id
  tag ← unmarshal_tag_name
  timestamp ← unmarshal_time
  frames ← unmarshal_uintptr_slice cap
  gid ← unmarshal_gid
  map_unmarshal
      (λ txid. record {
        id = id;
        tag = tag;
        timestamp = timestamp;
        frames = frames;
        gid = gid;
        txid = txid;
      })
      unmarshal_tx_id

unfoldable pub size_raw_func_log : ℕ
size_raw_func_log = 8 * 4 + 1 + 8 * (1 + max_stack_size)
