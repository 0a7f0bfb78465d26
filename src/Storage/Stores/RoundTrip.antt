-- ===== src/Storage/Stores/RoundTrip.antt =====
-- What Get of a store returns after Set.
use goapptrace.Base.{
  subst, sym, ℕ, ◌+◌, ◌-◌, ◌*◌, ◌≤◌, ◌≡◌, refl, arith, List, ok, none, max, inl, length, replicate,
  ◌++◌,
}
use goapptrace.Types.{
  Goroutine, FuncLog, RawFuncLog, IsGoroutine, IsFuncLog, IsRawFuncLog, max_stack_size,
}
use goapptrace.Encoding.Slices.{Marshal, Unmarshal, Writes, Reads}
use goapptrace.Encoding.Log.{
  marshal_goroutine, unmarshal_goroutine, size_goroutine, marshal_func_log, unmarshal_func_log,
  size_func_log, marshal_raw_func_log, unmarshal_raw_func_log, size_raw_func_log,
}
use goapptrace.Encoding.Log.Format.{
  goroutine_bytes, marshal_goroutine-Writes, unmarshal_goroutine-Reads, length-goroutine_bytes,
  func_log_bytes, marshal_func_log-Writes, unmarshal_func_log-Reads, length-func_log_bytes,
  raw_func_log_bytes, marshal_raw_func_log-Writes, unmarshal_raw_func_log-Reads,
  length-raw_func_log_bytes,
}
use goapptrace.Storage.WriteBuffer.{works}
use goapptrace.Storage.Store.{Store, read_nolock, write_nolock}
use goapptrace.Storage.Store.Reads.{IsFresh}
use goapptrace.Base.Int.{ℤ, pos}
use goapptrace.Storage.Store.Writes.{InRange, view, padded_record}
use goapptrace.Storage.Disk.{write_at}
use goapptrace.Storage.ReadBuffer.Reads as BufferReads
use goapptrace.Storage.Store.RoundTrip.{IsOpen, IsKept, write_nolock-IsKept}
use goapptrace.Storage.Stores.{
  decode_record, Stored, Found, get_func_log, get_raw_func_log, get_goroutine, set_func_log,
  set_raw_func_log, set_goroutine,
}

decode_record-Reads :
    {A : Type 0} (u : Unmarshal A) (a : A) (bytes rest : List ℕ)
    → Reads u a bytes
    → decode_record u (bytes ++ rest) ≡ ok a
unfolding decode_record
decode_record-Reads u a bytes rest r = rw (r rest) refl

-- Set returns no error, leaves an open store with the record in its place and all else as it was,
-- and Get returns `a` and leaves the records as they are.
abbrev pub GetsBack : {A : Type 0} → Store → ℕ → List ℕ → Stored → (Store → Found A) → A → Type 0
GetsBack s id bytes set get a =
    (t : Store) × (set ≡ ok (t, none))
    × IsOpen t
    × (t.records ≡ max s.records (id + 1))
    × (view t ≡ write_at (view s) (s.record_size * id) (padded_record s.record_size bytes))
    × ((u : Store) × (get t ≡ ok (u, inl a)) × (view u ≡ view t))

module _ (s : Store) (v : IsOpen s) (id : ℕ) (fresh : IsFresh s (s.record_size * id))
    (range : InRange s id) where
  record-GetsBack :
      {A : Type 0} (m : Marshal) (u : Unmarshal A) (a : A) (bytes : List ℕ)
      → Writes m bytes
      → Reads u a bytes
      → length bytes ≤ s.record_size
      → GetsBack s id bytes
          (write_nolock works works (pos id) m s)
          (read_nolock works BufferReads.works (pos id) (decode_record u))
          a
  record-GetsBack m u a bytes writes reads fits =
      let zeros : List ℕ = replicate (s.record_size - length bytes) 0 in
      let k : IsKept s id (decode_record u) a (padded_record s.record_size bytes)
          (write_nolock works works (pos id) m s) =
        write_nolock-IsKept s v id m (decode_record u) a bytes writes
          (decode_record-Reads u a bytes zeros reads) fits fresh range in
      (k.after, k.returned, k.still_open, k.counted, k.placed, k.read_back)

  at_id-GetsBack :
      {A : Type 0} (m : Marshal) (u : Unmarshal A) (a : A) (bytes : List ℕ)
      → Writes m bytes
      → Reads u a bytes
      → length bytes ≤ s.record_size
      → (i : ℤ) → i ≡ pos id
      → GetsBack s id bytes
          (write_nolock works works i m s)
          (read_nolock works BufferReads.works (pos id) (decode_record u))
          a
  at_id-GetsBack m u a bytes writes reads fits i is_id =
      subst
        (λ j.
          GetsBack s id bytes (write_nolock works works j m s)
            (read_nolock works BufferReads.works (pos id) (decode_record u)) a)
        (sym is_id) (record-GetsBack m u a bytes writes reads fits)

  -- In an open store whose records have room for the FuncLog, and whose reader is not wrong about its
  -- offset, if it believes that it is at the record, and whose file works: where the record of the ID, which is
  -- not negative, ends below 2^63, Set of a FuncLog whose
  -- fields fit their Go types returns no error, leaves an open store, which counts the ID, and changes
  -- nothing in the file, once the buffer is flushed, but the record at the ID; Get of the ID
  -- then returns the same FuncLog, and leaves the records as they are.
  pub get-set_func_log :
      (f : FuncLog)
      → IsFuncLog f
      → f.id ≡ pos id
      → size_func_log ≤ s.record_size
      → GetsBack s id
          (func_log_bytes f)
          (set_func_log works works f s)
          (get_func_log works BufferReads.works (pos id))
          f
  unfolding set_func_log get_func_log size_func_log
  get-set_func_log f h is_id size =
      at_id-GetsBack (marshal_func_log f) (unmarshal_func_log max_stack_size) f (func_log_bytes f)
        (marshal_func_log-Writes f) (unmarshal_func_log-Reads f h)
        (omega (arith, length-func_log_bytes f)) f.id is_id

  -- In an open store whose records have room for the RawFuncLog, and whose reader is not wrong about its
  -- offset, if it believes that it is at the record, and whose file works: where the record of the ID, which is
  -- not negative, ends below 2^63, Set of a RawFuncLog whose
  -- fields fit their Go types returns no error, leaves an open store, which counts the ID, and changes
  -- nothing in the file, once the buffer is flushed, but the record at the ID; Get of the ID
  -- then returns the same RawFuncLog, and leaves the records as they are.
  pub get-set_raw_func_log :
      (r : RawFuncLog)
      → IsRawFuncLog r
      → r.id ≡ pos id
      → size_raw_func_log ≤ s.record_size
      → GetsBack s id
          (raw_func_log_bytes r)
          (set_raw_func_log works works r s)
          (get_raw_func_log works BufferReads.works (pos id))
          r
  unfolding set_raw_func_log get_raw_func_log size_raw_func_log
  get-set_raw_func_log r h is_id size =
      at_id-GetsBack (marshal_raw_func_log r) (unmarshal_raw_func_log max_stack_size) r
        (raw_func_log_bytes r) (marshal_raw_func_log-Writes r) (unmarshal_raw_func_log-Reads r h)
        (omega (arith, length-raw_func_log_bytes r)) r.id is_id

  -- In an open store whose records have room for the Goroutine, and whose reader is not wrong about its
  -- offset, if it believes that it is at the record, and whose file works: where the record of the ID, which is
  -- not negative, ends below 2^63, Set of a Goroutine whose
  -- fields fit their Go types returns no error, leaves an open store, which counts the ID, and changes
  -- nothing in the file, once the buffer is flushed, but the record at the ID; Get of the ID
  -- then returns the same Goroutine, and leaves the records as they are.
  pub get-set_goroutine :
      (g : Goroutine)
      → IsGoroutine g
      → g.gid ≡ pos id
      → size_goroutine ≤ s.record_size
      → GetsBack s id
          (goroutine_bytes g)
          (set_goroutine works works g s)
          (get_goroutine works BufferReads.works (pos id))
          g
  unfolding set_goroutine get_goroutine
  get-set_goroutine g h is_id size =
      at_id-GetsBack (marshal_goroutine g) unmarshal_goroutine g (goroutine_bytes g)
        (marshal_goroutine-Writes g) (unmarshal_goroutine-Reads g h)
        (omega (arith, length-goroutine_bytes g)) g.gid is_id
