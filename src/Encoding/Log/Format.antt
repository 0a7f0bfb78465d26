-- ===== src/Encoding/Log/Format.antt =====
-- The bytes of each record, and that its two functions write and read them.
use goapptrace.Base.{ℕ, ◌+◌, ◌*◌, ◌≡◌, arith, List, [], ◌∷◌, ◌++◌, length, length-append}
use goapptrace.Types.{
  Goroutine, FuncLog, RawFuncLog, IsGoroutine, IsFuncLog, IsRawFuncLog, IsFrames, max_stack_size,
}
use goapptrace.Encoding.Slices.{Writes, Reads, &>-Writes, >>=-Reads, map_unmarshal-Reads}
use goapptrace.Encoding.Buildin.{
  marshal_uint64, marshal_uintptr_slice, unmarshal_uintptr_slice, size_each,
}
use goapptrace.Encoding.Buildin.Format.{
  slice_bytes, uint64_bytes, length-uint64_bytes, length-slice_bytes, marshal_slice-Writes,
  marshal_uint64-Writes, unmarshal_uint64-Reads, marshal_uint8-Writes, unmarshal_uint8-Reads,
  unmarshal_uintptr_slice-Reads,
}
use goapptrace.Encoding.Ids.{
  int64_bytes, marshal_int64-Writes, unmarshal_int64-Reads, marshal_gid, marshal_time,
  unmarshal_gid, unmarshal_time, marshal_func_log_id, unmarshal_func_log_id,
  marshal_raw_func_log_id, unmarshal_raw_func_log_id, marshal_tag_name, unmarshal_tag_name,
  marshal_tx_id, unmarshal_tx_id, length-int64_bytes,
}
use goapptrace.Encoding.Log.{
  marshal_goroutine, unmarshal_goroutine, size_goroutine, marshal_func_log, unmarshal_func_log,
  marshal_raw_func_log, unmarshal_raw_func_log,
}

marshal_uintptr_slice-Writes :
    (xs : List ℕ) → Writes (marshal_uintptr_slice xs) (slice_bytes uint64_bytes xs)
unfolding marshal_uintptr_slice
marshal_uintptr_slice-Writes =
    marshal_slice-Writes uint64_bytes marshal_uint64 marshal_uint64-Writes

unmarshal_frames-Reads :
    (xs : List ℕ)
    → IsFrames xs
    → Reads (unmarshal_uintptr_slice max_stack_size) xs (slice_bytes uint64_bytes xs)
unmarshal_frames-Reads xs h = unmarshal_uintptr_slice-Reads max_stack_size xs h.0 h.1 (omega arith)

size_each_const : (n : ℕ) (xs : List ℕ) → size_each (λ x. n) xs ≡ n * length xs
unfolding size_each
size_each_const n [] = omega arith
size_each_const n (x ∷ xs) = grind (arith, size_each_const n xs)

length-frames_bytes : (xs : List ℕ) → length (slice_bytes uint64_bytes xs) ≡ 8 * (1 + length xs)
length-frames_bytes xs =
    omega
      (arith, length-slice_bytes uint64_bytes (λ x. 8) length-uint64_bytes xs, size_each_const 8 xs)

unfoldable pub goroutine_bytes : Goroutine → List ℕ
goroutine_bytes g = int64_bytes g.gid ++ (int64_bytes g.start_time ++ int64_bytes g.end_time)

pub marshal_goroutine-Writes : (g : Goroutine) → Writes (marshal_goroutine g) (goroutine_bytes g)
unfolding marshal_goroutine goroutine_bytes marshal_gid marshal_time
marshal_goroutine-Writes g =
    &>-Writes _ _ _ _ (marshal_int64-Writes g.gid)
      (&>-Writes _ _ _ _ (marshal_int64-Writes g.start_time) (marshal_int64-Writes g.end_time))

pub unmarshal_goroutine-Reads :
    (g : Goroutine) → IsGoroutine g → Reads unmarshal_goroutine g (goroutine_bytes g)
unfolding unmarshal_goroutine goroutine_bytes unmarshal_gid unmarshal_time
unmarshal_goroutine-Reads g h = >>=-Reads _ _ g.gid g _ _ (unmarshal_int64-Reads g.gid h.gid) (
    >>=-Reads _ _ g.start_time g _ _ (unmarshal_int64-Reads g.start_time h.start_time)
      (map_unmarshal-Reads _ _ g.end_time _ (unmarshal_int64-Reads g.end_time h.end_time)))

unfoldable pub func_log_bytes : FuncLog → List ℕ
func_log_bytes f =
    int64_bytes f.id
    ++ (int64_bytes f.start_time
        ++ (int64_bytes f.end_time
            ++ (int64_bytes f.parent_id
                ++ (slice_bytes uint64_bytes f.frames ++ int64_bytes f.gid))))

pub marshal_func_log-Writes : (f : FuncLog) → Writes (marshal_func_log f) (func_log_bytes f)
unfolding marshal_func_log func_log_bytes marshal_gid marshal_time marshal_func_log_id
marshal_func_log-Writes f = &>-Writes _ _ _ _ (marshal_int64-Writes f.id) (
    &>-Writes _ _ _ _ (marshal_int64-Writes f.start_time) (
      &>-Writes _ _ _ _ (marshal_int64-Writes f.end_time) (
        &>-Writes _ _ _ _ (marshal_int64-Writes f.parent_id) (
          &>-Writes _ _ _ _ (marshal_uintptr_slice-Writes f.frames) (marshal_int64-Writes f.gid)))))

pub unmarshal_func_log-Reads :
    (f : FuncLog) → IsFuncLog f → Reads (unmarshal_func_log max_stack_size) f (func_log_bytes f)
unfolding unmarshal_func_log func_log_bytes unmarshal_gid unmarshal_time unmarshal_func_log_id
unmarshal_func_log-Reads f h = >>=-Reads _ _ f.id f _ _ (unmarshal_int64-Reads f.id h.id) (
    >>=-Reads _ _ f.start_time f _ _ (unmarshal_int64-Reads f.start_time h.start_time) (
      >>=-Reads _ _ f.end_time f _ _ (unmarshal_int64-Reads f.end_time h.end_time) (
        >>=-Reads _ _ f.parent_id f _ _ (unmarshal_int64-Reads f.parent_id h.parent_id) (
          >>=-Reads _ _ f.frames f _ _ (unmarshal_frames-Reads f.frames h.frames)
            (map_unmarshal-Reads _ _ f.gid _ (unmarshal_int64-Reads f.gid h.gid))))))

unfoldable pub raw_func_log_bytes : RawFuncLog → List ℕ
raw_func_log_bytes r =
    int64_bytes r.id
    ++ ((r.tag ∷ [])
        ++ (int64_bytes r.timestamp
            ++ (slice_bytes uint64_bytes r.frames ++ (int64_bytes r.gid ++ uint64_bytes r.txid))))

pub marshal_raw_func_log-Writes :
    (r : RawFuncLog) → Writes (marshal_raw_func_log r) (raw_func_log_bytes r)
unfolding marshal_raw_func_log raw_func_log_bytes marshal_gid marshal_time marshal_raw_func_log_id
    marshal_tag_name marshal_tx_id
marshal_raw_func_log-Writes r = &>-Writes _ _ _ _ (marshal_int64-Writes r.id) (
    &>-Writes _ _ (r.tag ∷ []) _ (marshal_uint8-Writes r.tag) (
      &>-Writes _ _ _ _ (marshal_int64-Writes r.timestamp) (
        &>-Writes _ _ _ _ (marshal_uintptr_slice-Writes r.frames)
          (&>-Writes _ _ _ _ (marshal_int64-Writes r.gid) (marshal_uint64-Writes r.txid)))))

pub unmarshal_raw_func_log-Reads :
    (r : RawFuncLog)
    → IsRawFuncLog r
    → Reads (unmarshal_raw_func_log max_stack_size) r (raw_func_log_bytes r)
unfolding unmarshal_raw_func_log raw_func_log_bytes unmarshal_gid unmarshal_time
    unmarshal_raw_func_log_id unmarshal_tag_name unmarshal_tx_id
unmarshal_raw_func_log-Reads r h = >>=-Reads _ _ r.id r _ _ (unmarshal_int64-Reads r.id h.id) (
    >>=-Reads _ _ r.tag r (r.tag ∷ []) _ (unmarshal_uint8-Reads r.tag) (
      >>=-Reads _ _ r.timestamp r _ _ (unmarshal_int64-Reads r.timestamp h.timestamp) (
        >>=-Reads _ _ r.frames r _ _ (unmarshal_frames-Reads r.frames h.frames) (
          >>=-Reads _ _ r.gid r _ _ (unmarshal_int64-Reads r.gid h.gid)
            (map_unmarshal-Reads _ _ r.txid _ (unmarshal_uint64-Reads r.txid h.txid))))))

-- The space that a record takes.
pub length-goroutine_bytes : (g : Goroutine) → length (goroutine_bytes g) ≡ size_goroutine
unfolding goroutine_bytes size_goroutine
length-goroutine_bytes g = omega (arith, length-append {0}, length-int64_bytes)

pub length-func_log_bytes :
    (f : FuncLog) → length (func_log_bytes f) ≡ 8 * 5 + 8 * (1 + length f.frames)
unfolding func_log_bytes
length-func_log_bytes f = omega (arith, length-append {0}, length-int64_bytes, length-frames_bytes)

pub length-raw_func_log_bytes :
    (r : RawFuncLog) → length (raw_func_log_bytes r) ≡ 8 * 4 + 1 + 8 * (1 + length r.frames)
unfolding raw_func_log_bytes
length-raw_func_log_bytes r =
    omega (arith, length-append {0}, length-int64_bytes, length-uint64_bytes, length-frames_bytes)
