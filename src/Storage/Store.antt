-- ===== src/Storage/Store.antt =====
-- tracer/storage/store.go: Store, a file of records of one size, read and written by their index
-- through a ReadBuffer and a WriteBuffer. A method is one step, under its lock. An index is an int64, and
-- a position the natural number with the bits of the int64: that of a negative one is 2^63 or more,
-- and a Seek to it fails, as Io and ReadIo may say.
pub mod Writes
pub mod Reads
pub mod RoundTrip
pub mod Opened
use goapptrace.Base.{
  ℕ, ◌+◌, ◌-◌, ◌*◌, ◌/◌, ◌^◌, ◌%◌, ◌⊎◌, inl, inr, Bool, true, false, not, List, [], Option, none,
  some, Outcome, ok, panic, ◌>>=◌, leb, ltb, ◌==◌, if◌then◌else◌, length, take, drop, replicate,
  ◌++◌,
}
use goapptrace.Base.Int.{ℤ, pos, ltb_ℤ, pos_part, to_uint64, incr_int64}
use goapptrace.Encoding.Slices.{Marshal}
use goapptrace.Storage.WriteBuffer
use goapptrace.Storage.WriteBuffer.{WriteBuffer, FileWriter, Io, fill_slice}
use goapptrace.Storage.ReadBuffer
use goapptrace.Storage.ReadBuffer.{ReadBuffer, ReadIo, ReadError, drop_cache}

pub data StoreError : Type 0 where
  err_closed : StoreError
  err_read_only : StoreError
  err_write : StoreError
  err_read : ReadError → StoreError

-- The file's bytes and the writer's offset in it are `file`; the reader's offset is `r_offset`.
pub record Store : Type 0 where
  pub record_size : ℕ
  pub read_only : Bool
  pub closed : Bool
  pub file : FileWriter
  pub r_offset : ℕ
  pub rb : ReadBuffer
  pub wb : WriteBuffer
  pub records : ℕ

-- Which calls of Open and Close succeed.
pub record OpenIo : Type 0 where
  pub opens_write : Bool
  pub opens_read : Bool
  pub sizes : Bool

pub record CloseIo : Type 0 where
  pub closes_read : Bool
  pub flushes : Io
  pub closes_write : Bool

-- 100 records, or 4KiB if that is more.
abbrev pub buffer_size_for : ℕ → ℕ
buffer_size_for n = if ltb (100 * n) 4096 then 4096 else 100 * n

abbrev pub new_write_buffer : ℕ → WriteBuffer
new_write_buffer n = record {
  max_write_size = n;
  buffer_size = buffer_size_for n;
  wpos = some 0;
  buf = none;
  pos = 0;
  left = 0;
  right = 0;
}

abbrev pub new_read_buffer : ℕ → ReadBuffer
new_read_buffer n = record {
  max_read_size = n;
  buffer_size = buffer_size_for n;
  rpos = some 0;
  buf = none;
  pos = 0;
  left = 0;
  right = 0;
}

abbrev pub at_start : FileWriter → FileWriter
at_start f = record f { offset = 0 }

abbrev pub open_reader : OpenIo → Store → Store × Option StoreError
open_reader io e =
    if not io.opens_read
    then (e, some (err_read ReadError.failed))
    else let e' = record e { rb = new_read_buffer e.record_size; r_offset = 0 } in
      if not io.sizes
      then (e', some (err_read ReadError.failed))
      else (record e' { records = length e.file.content / e.record_size }, none)

-- Open. The file is there, with what is in it, or has been created.
unfoldable pub open_store : OpenIo → Store → Outcome (Store × Option StoreError)
open_store io e =
    if e.record_size == 0
    then panic
    else let e' = record e { closed = false } in
      ok (
        if e.read_only
        then open_reader io e'
        else if not io.opens_write
        then (e', some err_write)
        else open_reader io
            (record e' { wb = new_write_buffer e.record_size; file = at_start e.file }))

-- The two buffers and the file after a call of the WriteBuffer.
abbrev pub with_write : Store → WriteBuffer × FileWriter × Bool → Store
with_write e r = record e { wb = r.0; file = r.1 }

abbrev pub flush_error : Bool → Option StoreError
flush_error true = none
flush_error false = some err_write

-- Flush and FlushNolock
unfoldable pub flush_nolock : Io → Store → Outcome (Store × Option StoreError)
flush_nolock io e = WriteBuffer.flush io e.wb e.file >>= λ r. ok (with_write e r, flush_error r.2)

-- decode(buf), where there is no error
abbrev pub decode_read {ℓ} :
    {A : Type ℓ}
    → (List ℕ → Outcome A)
    → Store
    → List ℕ ⊎ ReadError
    → Outcome (Store × (A ⊎ StoreError))
decode_read decode e (inl bytes) = decode bytes >>= λ a. ok (e, inl a)
decode_read decode e (inr err) = ok (e, inr (err_read err))

-- pos := int64(RecordSize) * idx
abbrev pub position : ℤ → Store → ℕ
position idx e = e.record_size * to_uint64 idx % 2 ^ 64

-- ReadNolock after the Flush
unfoldable pub read_flushed {ℓ} :
    {A : Type ℓ}
    → ReadIo
    → ℕ
    → (List ℕ → Outcome A)
    → Store
    → WriteBuffer × FileWriter × Bool
    → Outcome (Store × (A ⊎ StoreError))
read_flushed rio p decode e (wb, file, false) =
    ok (record e { wb = wb; file = file }, inr err_write)
read_flushed rio p decode e (wb, file, true) =
    ReadBuffer.read rio file.content e.record_size (ReadBuffer.seek p e.rb) e.r_offset >>= λ r.
    decode_read decode (record e { wb = wb; file = file; rb = r.0; r_offset = r.1 }) r.2

-- Read and ReadNolock
unfoldable pub read_nolock {ℓ} :
    {A : Type ℓ}
    → Io
    → ReadIo
    → ℤ
    → (List ℕ → Outcome A)
    → Store
    → Outcome (Store × (A ⊎ StoreError))
unfolding read_flushed
read_nolock io rio idx decode e =
    WriteBuffer.flush io e.wb e.file >>= λ r. read_flushed rio (position idx e) decode e r

-- What WriteNolock does with the slice: encode(buf), and zeros after the bytes that it wrote.
unfoldable pub padded : Marshal → Marshal
padded encode buf = do
  (out, n) ← encode buf
  room ← if leb n (length out) then ok (take n out ++ replicate (length out - n) 0) else panic
  ok (room, n)

-- `next` is idx+1, which may wrap.
abbrev pub count_written : ℤ → Store → WriteBuffer × FileWriter × Bool → Store × Option StoreError
count_written next e (wb, file, false) = (record e { wb = wb; file = file }, some err_write)
count_written next e (wb, file, true) = (
  record e {
    wb = wb;
    file = file;
    records = (if ltb_ℤ (pos e.records) next then pos_part next else e.records);
  },
  none,
)

-- The slice is filled and written, where the position is right.
unfoldable pub write_record :
    Io → ℤ → Marshal → Store → WriteBuffer × FileWriter × Bool → Outcome (Store × Option StoreError)
unfolding padded
write_record io next encode e (wb, file, false) =
    ok (record e { wb = wb; file = file }, some err_write)
write_record io next encode e (wb, file, true) = fill_slice (padded encode) wb >>= λ filled.
    WriteBuffer.write io e.record_size filled.0 file >>= λ r. ok (count_written next e r)

-- WriteNolock; the first Io is that of Seek, the other that of Write.
unfoldable pub write_nolock : Io → Io → ℤ → Marshal → Store → Outcome (Store × Option StoreError)
unfolding write_record
write_nolock seeking writing idx encode e =
    if e.closed
    then ok (e, some err_closed)
    else if e.read_only
    then ok (e, some err_read_only)
    else let e' = record e { rb = drop_cache e.rb } in
      (WriteBuffer.seek seeking (position idx e) e.wb e.file >>= λ r.
      write_record writing (incr_int64 idx) encode e' r)

-- Write
unfoldable pub write : ℤ → Marshal → Store → Outcome (Store × Option StoreError)
write idx encode e = ok (e, some err_closed)

-- Append and AppendNolock
unfoldable pub append_nolock : Io → Io → Marshal → Store → Outcome (Store × Option StoreError)
unfolding write_nolock
append_nolock seeking writing encode e = write_nolock seeking writing (pos e.records) encode e

abbrev pub close_writer : CloseIo → Store × Option StoreError → Store × Option StoreError
close_writer io (e, some err) = (e, some err)
close_writer io (e, none) = (e, if io.closes_write then none else some err_write)

-- Close
unfoldable pub close : CloseIo → Store → Outcome (Store × Option StoreError)
unfolding flush_nolock
close io e =
    let e' = record e { closed = true } in
    if e.closed
    then ok (e, none)
    else if not io.closes_read
    then ok (e', some (err_read ReadError.failed))
    else if e.read_only
    then ok (e', none)
    else (flush_nolock io.flushes e' >>= λ r. ok (close_writer io r))
