-- ===== src/Storage/ReadBuffer.antt =====
-- tracer/storage/buffer.go, ReadBuffer: reads of a file, buffered, from positions that may jump.
pub mod Reads
pub mod Cached
pub mod Seeks
pub mod Stale
use goapptrace.Base.{
  ℕ, ◌+◌, ◌-◌, ◌⊎◌, inl, inr, Bool, true, false, not, ◌&&◌, ◌||◌, List, Option, none, some, Outcome,
  ok, panic, ◌>>=◌, leb, ltb, ◌==◌, if◌then◌else◌, length, take, drop, replicate, ◌++◌,
}
use goapptrace.Storage.Disk.{read_at}
use goapptrace.Storage.WriteBuffer.{at_pos, bytes_of}

-- The error of an operation: io.EOF, or another one of the file's.
pub data ReadError : Type 0 where
  eof : ReadError
  failed : ReadError

-- How a Seek goes, and how a Read does.
pub record ReadIo : Type 0 where
  pub seeks : Bool
  pub reads : Bool

-- A position of -1 is `none`; a buffer that is nil is `none`.
pub record ReadBuffer : Type 0 where
  pub max_read_size : ℕ
  pub buffer_size : ℕ
  pub rpos : Option ℕ
  pub buf : Option (List ℕ)
  pub pos : ℕ
  pub left : ℕ
  pub right : ℕ

-- The buffer, the offset of its file, and the error.
abbrev pub CacheResult : Type 0
CacheResult = ReadBuffer × ℕ × Option ReadError

abbrev pub drop_cache : ReadBuffer → ReadBuffer
drop_cache b = record b { left = 0; right = 0 }

-- The cached bytes that are skipped are dropped with the rest.
unfoldable pub seek : ℕ → ReadBuffer → ReadBuffer
seek pos b =
    if b.pos == pos
    then b
    else let b' =
        if ltb b.pos pos && ltb pos (b.pos + (b.right - b.left))
        then record b { pos = b.pos + (pos - b.pos); left = b.left + (pos - b.pos) }
        else b in
      record b' { pos = pos; left = 0; right = 0 }

abbrev pub read_buf : ReadBuffer → List ℕ
read_buf b = elim b.buf [ none ↦ replicate b.buffer_size 0 | some buf ↦ buf ]

-- b.rpos += n, where b.rpos is not -1.
abbrev pub advanced : ℕ → Option ℕ → Option ℕ
advanced n none = none
advanced n (some p) = some (p + n)

-- Read(b.buf) of the file from its offset: at its end there is nothing to read.
abbrev pub fill_cache : ReadIo → List ℕ → ReadBuffer → ℕ → CacheResult
fill_cache io file b offset =
    let buf = read_buf b in
    let got = read_at file offset (length buf) in
    let filled = record b { buf = some (got ++ drop (length got) buf); left = 0; right = 0 } in
    if not io.reads
    then (record b { rpos = none; buf = some buf; left = 0; right = 0 }, offset, some failed)
    else if leb (length file) offset && ltb 0 (length buf)
    then (record filled { rpos = none }, offset, some eof)
    else (
      record filled { rpos = advanced b.buffer_size b.rpos; right = length got },
      offset + length got,
      none,
    )

unfoldable pub do_cache : ReadIo → List ℕ → ReadBuffer → ℕ → CacheResult
do_cache io file b offset =
    if at_pos b.rpos b.pos
    then fill_cache io file b offset
    else if io.seeks
    then fill_cache io file (record b { rpos = some b.pos }) b.pos
    else (b, offset, some failed)

-- ret := b.buf[b.left : b.left+bytes]
abbrev pub take_cached : ℕ → ReadBuffer → Outcome (ReadBuffer × List ℕ)
take_cached n b =
    if leb (b.left + n) (length (bytes_of b.buf))
    then ok (record b { pos = b.pos + n; left = b.left + n }, take n (drop b.left (bytes_of b.buf)))
    else panic

-- The buffer, the offset of its file, and the bytes or the error.
abbrev pub ReadResult : Type 0
ReadResult = Outcome (ReadBuffer × ℕ × (List ℕ ⊎ ReadError))

abbrev pub read_cached : ℕ → ReadBuffer × ℕ × Option ReadError → ReadResult
read_cached n (b, offset, none) = take_cached n b >>= λ r. ok (r.0, offset, inl r.1)
read_cached n (b, offset, some e) = ok (b, offset, inr e)

unfoldable pub read : ReadIo → List ℕ → ℕ → ReadBuffer → ℕ → ReadResult
unfolding do_cache
read io file n b offset =
    if ltb b.max_read_size n
    then panic
    else read_cached n (
        if ltb (b.right - b.left) b.max_read_size
        then do_cache io file b offset
        else (b, offset, none))
