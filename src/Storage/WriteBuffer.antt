-- ===== src/Storage/WriteBuffer.antt =====
-- tracer/storage/buffer.go, WriteBuffer: writes to a file, buffered, at positions that may jump. An
-- operation returns the new buffer, the file and whether its error is nil, or panics.
pub mod Contents
pub mod Records
pub mod Seeks
use goapptrace.Base
use goapptrace.Base.{
  ℕ, ◌+◌, ◌-◌, ◌≡◌, Bool, true, false, List, Option, none, some, Outcome, ok, panic, ◌>>=◌, leb,
  ltb, ◌==◌, if◌then◌else◌, length, take, drop, replicate, ◌++◌,
}
use goapptrace.Encoding.Slices.{Marshal}
use goapptrace.Storage.Disk.{write_at}

-- A writer's file, with its offset.
pub record FileWriter : Type 0 where
  pub content : List ℕ
  pub offset : ℕ

-- How a Seek goes, and how a Write: it writes all bytes, or fails after the first `done` bytes.
pub data Transfer : Type 0 where
  whole : Transfer
  fails : (done : ℕ) → Transfer

pub record Io : Type 0 where
  pub seeks : Bool
  pub transfer : Transfer

abbrev pub works : Io
works = record { seeks = true; transfer = whole }

-- A position of -1 is `none`; a buffer that is nil is `none`.
pub record WriteBuffer : Type 0 where
  pub max_write_size : ℕ
  pub buffer_size : ℕ
  pub wpos : Option ℕ
  pub buf : Option (List ℕ)
  pub pos : ℕ
  pub left : ℕ
  pub right : ℕ

abbrev pub WriteResult : Type 0
WriteResult = Outcome (WriteBuffer × FileWriter × Bool)

abbrev pub bytes_of : Option (List ℕ) → List ℕ
bytes_of none = List.[]
bytes_of (some b) = b

-- b.buf[b.left:b.right]
unfoldable pub buffered : WriteBuffer → List ℕ
buffered b = take (b.right - b.left) (drop b.left (bytes_of b.buf))

-- BufferedRange
unfoldable pub buffered_range : WriteBuffer → ℕ × ℕ
buffered_range b = (b.pos, b.pos + (b.right - b.left))

abbrev pub at_pos : Option ℕ → ℕ → Bool
at_pos none p = false
at_pos (some q) p = q == p

abbrev pub with_wpos : Option ℕ → WriteBuffer → WriteBuffer
with_wpos p b = record b { wpos = p }

abbrev pub write_file : FileWriter → List ℕ → FileWriter
write_file w bytes = record {
  content = write_at w.content w.offset bytes;
  offset = w.offset + length bytes;
}

-- The Write of Flush, where b.wpos is b.pos.
abbrev pub flush_write : Transfer → WriteBuffer → FileWriter → WriteBuffer × FileWriter × Bool
flush_write whole b w = (
  record b {
    wpos = some (b.pos + (b.right - b.left));
    pos = b.pos + (b.right - b.left);
    left = 0;
    right = 0;
  },
  write_file w (buffered b),
  true,
)
flush_write (fails done) b w = (with_wpos none b, write_file w (take done (buffered b)), false)

-- Seek and Write.
abbrev pub flush_seek : Bool → Io → WriteBuffer → FileWriter → WriteBuffer × FileWriter × Bool
flush_seek true io b w = flush_write io.transfer b w
flush_seek false io b w =
    if io.seeks
    then flush_write io.transfer (with_wpos (some b.pos) b)
        (record { content = w.content; offset = b.pos })
    else (b, w, false)

unfoldable pub flush : Io → WriteBuffer → FileWriter → WriteResult
unfolding buffered
flush io b w =
    if b.left == b.right
    then ok (b, w, true)
    else if leb b.right (length (bytes_of b.buf))
    then ok (flush_seek (at_pos b.wpos b.pos) io b w)
    else panic

-- Seek, to where the next write goes: the buffer is flushed unless that is its end.
unfoldable pub seek : Io → ℕ → WriteBuffer → FileWriter → WriteResult
unfolding flush
seek io pos b w =
    if b.pos + (b.right - b.left) == pos
    then ok (b, w, true)
    else (flush io b w >>= λ r. ok (if r.2 then (record r.0 { pos = pos }, r.1, true) else r))

abbrev pub allocated : WriteBuffer → Option (List ℕ) → Outcome (List ℕ)
allocated b none =
    if ltb b.buffer_size b.max_write_size then panic else ok (replicate b.buffer_size 0)
allocated b (some buf) = ok buf

-- WriteBuffer and what is done with the slice that it gives: `fill` writes to it.
unfoldable pub fill_slice : Marshal → WriteBuffer → Outcome (WriteBuffer × ℕ)
fill_slice fill b = do
  buf ← allocated b b.buf
  room ← if leb (b.right + b.max_write_size) (length buf) then ok buf else panic
  (out, n) ← fill (take b.max_write_size (drop b.right room))
  ok (
    record b { buf = some (take b.right room ++ (out ++ drop (b.right + b.max_write_size) room)) },
    n,
  )

-- Write(bytes): the bytes in the slice count, and are flushed where there is no room for more.
unfoldable pub write : Io → ℕ → WriteBuffer → FileWriter → WriteResult
unfolding flush
write io n b w =
    let b' = record b { right = b.right + n } in
    if ltb b.max_write_size n
    then panic
    else if leb b.max_write_size (length (bytes_of b.buf) - (b.right + n))
    then ok (b', w, true)
    else flush io b' w
