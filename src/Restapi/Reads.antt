-- ===== src/Restapi/Reads.antt =====
-- tracer/restapi/handlers.go, APIv0.search: the Read of a search of calls and of one of frames, and what
-- they give one after the other.
pub mod Frames
use goapptrace.Base.{
  ℕ, zero, suc, Bool, true, false, ◌&&◌, List, [], ◌∷◌, Option, none, some, length, if◌then◌else◌,
}
use goapptrace.Base.Int.{ℤ, pos, negsuc, incr_int64, ltb_ℤ, leb_ℤ}
use goapptrace.Types.{FuncLog}

-- `id` and `offset` of the handler, and the FuncLog of its row, whose offset is the same.
pub record Cursor : Type 0 where
  pub id : ℤ
  pub offset : ℤ
  pub func_log : FuncLog

-- What a Read returns: nil, io.EOF, or an error.
pub data Reading : Type 0 where
  gives : FuncLog → ℤ → Reading
  at_eof : Reading
  fails : Reading

-- The handler's state before the first Read, with a FuncLog of the pool.
abbrev pub start : FuncLog → Cursor
start pooled = record { id = negsuc 0; offset = negsuc 0; func_log = pooled }

-- Records of the store and what GetNolock reads, which is none for an error.
module _ (records : ℕ) (get_nolock : ℤ → Option FuncLog) where
  abbrev pub loaded : Cursor → ℤ → Option FuncLog → Cursor × Reading
  loaded c offset none = (c, fails)
  loaded c offset (some l) = (record c { func_log = l }, gives l offset)

  -- The test for the end, and GetNolock, for the row at the offset.
  abbrev pub load : Cursor → ℤ → Cursor × Reading
  load c offset =
      if leb_ℤ (pos records) c.id then (c, at_eof) else loaded c offset (get_nolock c.id)

  -- No offset is set in the row of a search of calls, so it stays 0.
  unfoldable pub read_call : Cursor → Cursor × Reading
  read_call c = load (record c { id = incr_int64 c.id }) (pos 0)

  unfoldable pub read_frame : Cursor → Cursor × Reading
  read_frame c =
      let next = incr_int64 c.offset in
      if ltb_ℤ next (pos (length c.func_log.frames)) && leb_ℤ (pos 0) c.offset
      then (record c { offset = next }, gives c.func_log next)
      else load (record c { id = incr_int64 c.id; offset = pos 0 }) (pos 0)

-- The rows up to the end or an error, if `fuel` reads are enough, and whether the end is reached.
abbrev pub put :
    FuncLog × ℤ → Option (List (FuncLog × ℤ) × Bool) → Option (List (FuncLog × ℤ) × Bool)
put r none = none
put r (some (rows, ended)) = some (r ∷ rows, ended)

abbrev pub after : Option (List (FuncLog × ℤ) × Bool) → Reading → Option (List (FuncLog × ℤ) × Bool)
after rest (gives l offset) = put (l, offset) rest
after rest at_eof = some ([], true)
after rest fails = some ([], false)

unfoldable pub read_all :
    (Cursor → Cursor × Reading) → (fuel : ℕ) → Cursor → Option (List (FuncLog × ℤ) × Bool)
read_all read zero c = none
read_all read (suc fuel) c = after (read_all read fuel (read c).0) (read c).1
