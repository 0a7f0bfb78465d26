-- ===== src/Examples/Stores.antt =====
-- tracer/storage/buffer.go, store.go and stores.go on small files.
use goapptrace.Base.{
  ℕ, ◌≤◌, ◌<◌, ◌≡◌, refl, arith, replicate, length-replicate, ◌*◌, true, false, List, [], ◌∷◌, some,
  none, Option, ok, inl, length, ◌++◌,
}
use goapptrace.Base.Int.{pos}
use goapptrace.Types.{FuncLog, IsFuncLog}
use goapptrace.Encoding.Log.{marshal_func_log, size_func_log}
use goapptrace.Encoding.Log.Format.{func_log_bytes, marshal_func_log-Writes, length-func_log_bytes}
use goapptrace.Storage.WriteBuffer.Records.{HasRoom}
use goapptrace.Storage.WriteBuffer.{Io, Transfer, works}
use goapptrace.Storage.ReadBuffer.{ReadBuffer, read}
use goapptrace.Storage.ReadBuffer.Reads as BufferReads
use goapptrace.Storage.ReadBuffer.Stale.{again, read-stale}
use goapptrace.Storage.Store.{
  Store, StoreError, buffer_size_for, new_read_buffer, new_write_buffer, write_nolock,
}
use goapptrace.Storage.Store.Opened.{opened, opened-IsOpen}
use goapptrace.Storage.Store.RoundTrip.{IsOpen}
use goapptrace.Storage.Store.Writes.{InRange, IsWritable, Outcomes, write_nolock-outcome}
use goapptrace.Storage.Stores.{set_func_log, get_func_log}
use goapptrace.Storage.Stores.RoundTrip.{GetsBack, get-set_func_log}

abbrev unopened : Store
unopened = record {
  record_size = size_func_log;
  read_only = false;
  closed = false;
  file = record { content = []; offset = 0 };
  r_offset = 0;
  rb = new_read_buffer 0;
  wb = new_write_buffer 0;
  records = 0;
}

-- A store of FuncLogs that has been opened on an empty file.
abbrev empty : Store
empty = opened unopened

positive : 0 < size_func_log
unfolding size_func_log
positive = omega arith

empty-IsOpen : IsOpen empty
empty-IsOpen = opened-IsOpen unopened refl positive

abbrev call : FuncLog
call = record {
  id = pos 0;
  start_time = pos 10;
  end_time = pos 25;
  parent_id = pos 0;
  frames = 4198400 ∷ 4198464 ∷ [];
  gid = pos 1;
}

call-IsFuncLog : IsFuncLog call
call-IsFuncLog = record {
  id = omega arith;
  start_time = omega arith;
  end_time = omega arith;
  parent_id = omega arith;
  frames = omega arith;
  gid = omega arith;
}

-- The 560 bytes of the record of an index.
empty-InRange : (i : ℕ) → i < 100 → InRange empty i
unfolding size_func_log
empty-InRange i h = (omega arith, omega arith)

get-set_func_log_example :
    GetsBack empty 0
      (func_log_bytes call)
      (set_func_log works works call empty)
      (get_func_log works BufferReads.works (pos 0))
      call
get-set_func_log_example =
    get-set_func_log empty empty-IsOpen 0 (λ _. omega arith) (empty-InRange 0 (omega arith)) call
      call-IsFuncLog refl (omega arith)

-- The write of the file fails after 20 bytes.
abbrev broken : Io
broken = record { seeks = true; transfer = Transfer.fails 20 }

fits : length (func_log_bytes call) ≤ empty.record_size
unfolding size_func_log
fits = omega (arith, length-func_log_bytes call)

-- The buffer has records waiting at the index 3, so that a seek to 7 writes them to the file.
abbrev waiting : Store
waiting = record empty {
  wb = record empty.wb {
    buf = some (replicate (buffer_size_for size_func_log) 0);
    pos = size_func_log * 3;
    right = size_func_log;
  };
}

waiting-HasRoom : HasRoom waiting.wb
unfolding size_func_log
waiting-HasRoom = omega (arith, length-replicate {A = ℕ} (buffer_size_for size_func_log) 0)

waiting-IsWritable : IsWritable waiting
unfolding size_func_log
waiting-IsWritable = record {
  open_still = refl;
  for_writing = refl;
  record_max = refl;
  synced = record {
    from_zero = refl;
    within = omega (arith, length-replicate {A = ℕ} (buffer_size_for size_func_log) 0);
    at_wpos = λ p h. cc;
  };
}

-- The seek does not reach the record.
write_nolock-outcome_example :
    (q : Store × Option StoreError) × (write_nolock broken broken
        (pos 7)
        (marshal_func_log call)
        waiting
      ≡ ok q)
    × IsWritable q.0
    × Outcomes waiting waiting-IsWritable waiting-HasRoom 7
        (marshal_func_log call)
        (func_log_bytes call)
        (marshal_func_log-Writes call)
        fits
        q
write_nolock-outcome_example =
    write_nolock-outcome waiting waiting-IsWritable waiting-HasRoom 7 (marshal_func_log call)
      (func_log_bytes call) (marshal_func_log-Writes call) fits broken broken
      (empty-InRange 7 (omega arith))

-- Records of two bytes, four of which go into the buffer.
abbrev small : ReadBuffer
small = record {
  max_read_size = 2;
  buffer_size = 8;
  rpos = some 0;
  buf = none;
  pos = 0;
  left = 0;
  right = 0;
}

abbrev one_record : List ℕ
one_record = 1 ∷ 2 ∷ []

abbrev four_more : List ℕ
four_more = 3 ∷ 4 ∷ 5 ∷ 6 ∷ 7 ∷ 8 ∷ 9 ∷ 10 ∷ []

small-IsSized : BufferReads.IsSized 2 small
small-IsSized = record { positive = omega arith; exact = refl; large = omega arith; full = refl }

read-stale_example :
    (c : ReadBuffer) × (o : ℕ) × (c' : ReadBuffer) × (o' : ℕ) × (read BufferReads.works one_record 2
        small 0
      ≡ ok (c, o, inl (1 ∷ 2 ∷ [])))
    × (read BufferReads.works
          (one_record ++ four_more)
          2
          (again one_record four_more 2 small 0 small-IsSized c)
          o
        ≡ ok (c', o', inl (3 ∷ 4 ∷ [])))
read-stale_example =
    read-stale one_record four_more 2 small 0 small-IsSized (omega arith) (λ _. refl) (omega arith)
      (omega arith) (omega arith)
