-- ===== src/Encoding/Log/RoundTrip.antt =====
-- Each record of log.go is read back as it was written.
use goapptrace.Base.{ℕ, ◌+◌, ◌*◌, ◌≤◌, arith, List, length}
use goapptrace.Types.{
  Goroutine, FuncLog, RawFuncLog, IsGoroutine, IsFuncLog, IsRawFuncLog, max_stack_size,
}
use goapptrace.Encoding.Slices.{RoundTrips, Writes-Reads-RoundTrips}
use goapptrace.Encoding.Log.{
  marshal_goroutine, unmarshal_goroutine, size_goroutine, marshal_func_log, unmarshal_func_log,
  size_func_log, marshal_raw_func_log, unmarshal_raw_func_log, size_raw_func_log,
}
use goapptrace.Encoding.Log.Format.{
  goroutine_bytes, marshal_goroutine-Writes, unmarshal_goroutine-Reads, length-goroutine_bytes,
  func_log_bytes, marshal_func_log-Writes, unmarshal_func_log-Reads, length-func_log_bytes,
  raw_func_log_bytes, marshal_raw_func_log-Writes, unmarshal_raw_func_log-Reads,
  length-raw_func_log_bytes,
}

-- For every Goroutine of int64 fields and every buffer of at least SizeGoroutine() bytes,
-- MarshalGoroutine writes exactly SizeGoroutine() bytes at its front, changes nothing behind them,
-- and UnmarshalGoroutine reads the same Goroutine and the same byte count back.
pub goroutine-RoundTrips :
    (g : Goroutine) (buf : List ℕ)
    → IsGoroutine g
    → size_goroutine ≤ length buf
    → RoundTrips (marshal_goroutine g) unmarshal_goroutine g size_goroutine buf
goroutine-RoundTrips g buf h room =
    Writes-Reads-RoundTrips _ _ g (goroutine_bytes g) _ (marshal_goroutine-Writes g)
      (unmarshal_goroutine-Reads g h) (length-goroutine_bytes g) buf room

-- For every FuncLog whose fields fit their Go types and which has at most MaxStackSize frames, and
-- every buffer of at least SizeFuncLog() bytes, MarshalFuncLog writes 8 * (6 + len(Frames)) bytes,
-- which is at most SizeFuncLog(), changes nothing behind them, and UnmarshalFuncLog into a record
-- with Frames of capacity MaxStackSize reads the same FuncLog and the same byte count back.
pub func_log-RoundTrips :
    (f : FuncLog) (buf : List ℕ)
    → IsFuncLog f
    → size_func_log ≤ length buf
    → (8 * (6 + length f.frames) ≤ size_func_log)
      × RoundTrips
          (marshal_func_log f)
          (unmarshal_func_log max_stack_size)
          f
          (8 * (6 + length f.frames))
          buf
unfolding size_func_log
func_log-RoundTrips f buf h room = (
  omega arith,
  Writes-Reads-RoundTrips _ _ f (func_log_bytes f) _ (marshal_func_log-Writes f)
      (unmarshal_func_log-Reads f h) (omega (arith, length-func_log_bytes f)) buf (omega arith),
)

-- For every RawFuncLog whose fields fit their Go types and which has at most MaxStackSize frames,
-- and every buffer of at least SizeRawFuncLog() bytes, MarshalRawFuncLog writes
-- 8 * (5 + len(Frames)) + 1 bytes, which is at most SizeRawFuncLog(), changes nothing behind them,
-- and UnmarshalRawFuncLog into a record with Frames of capacity MaxStackSize reads the same
-- RawFuncLog and the same byte count back.
pub raw_func_log-RoundTrips :
    (r : RawFuncLog) (buf : List ℕ)
    → IsRawFuncLog r
    → size_raw_func_log ≤ length buf
    → (8 * (5 + length r.frames) + 1 ≤ size_raw_func_log)
      × RoundTrips
          (marshal_raw_func_log r)
          (unmarshal_raw_func_log max_stack_size)
          r
          (8 * (5 + length r.frames) + 1)
          buf
unfolding size_raw_func_log
raw_func_log-RoundTrips r buf h room = (
  omega arith,
  Writes-Reads-RoundTrips _ _ r (raw_func_log_bytes r) _ (marshal_raw_func_log-Writes r)
      (unmarshal_raw_func_log-Reads r h) (omega (arith, length-raw_func_log_bytes r)) buf
      (omega arith),
)
