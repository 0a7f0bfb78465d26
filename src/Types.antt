-- ===== src/Types.antt =====
-- The records of tracer/types: log.go, types.go and symbols.go. A Go string is the list of its
-- bytes, a uintptr, a uint64 or a uint32 a natural number below its bound, an int64 an integer.
pub mod LogId
pub mod Metadata
use goapptrace.Base.{ℕ, ◌^◌, ◌<◌, ◌≤◌, Bool, not, List, All, length}
use goapptrace.Base.Int.{ℤ, negsuc, IsInt64, ◌==ℤ◌}

-- types.NotEnded, Time(-1)
abbrev pub not_ended : ℤ
not_ended = negsuc 0

-- types.NotFoundParent, FuncLogID(-1)
abbrev pub not_found_parent : ℤ
not_found_parent = negsuc 0

abbrev pub max_stack_size : ℕ
max_stack_size = 64

-- The two values of TagName.
abbrev pub func_start : ℕ
func_start = 0

abbrev pub func_end : ℕ
func_end = 1

pub record Goroutine : Type 0 where
  pub gid : ℤ
  pub start_time : ℤ
  pub end_time : ℤ

pub record FuncLog : Type 0 where
  pub id : ℤ
  pub start_time : ℤ
  pub end_time : ℤ
  pub parent_id : ℤ
  pub frames : List ℕ
  pub gid : ℤ

pub record RawFuncLog : Type 0 where
  pub id : ℤ
  pub tag : ℕ
  pub timestamp : ℤ
  pub frames : List ℕ
  pub gid : ℤ
  pub txid : ℕ

-- FuncLog.IsEnded
unfoldable pub is_ended : FuncLog → Bool
is_ended fl = not (fl.end_time ==ℤ not_ended)

pub record GoModule : Type 0 where
  pub name : List ℕ
  pub min_pc : ℕ
  pub max_pc : ℕ

pub record GoFunc : Type 0 where
  pub entry : ℕ
  pub name : List ℕ

pub record GoLine : Type 0 where
  pub pc : ℕ
  pub file_id : ℕ
  pub line : ℕ

pub record SymbolsData : Type 0 where
  pub files : List (List ℕ)
  pub mods : List GoModule
  pub funcs : List GoFunc
  pub lines : List GoLine

abbrev pub IsUint64 : ℕ → Type 0
IsUint64 v = v < 2 ^ 64

abbrev pub IsUint32 : ℕ → Type 0
IsUint32 v = v < 2 ^ 32

-- A slice or a string has an int for its length.
abbrev pub IsString : List ℕ → Type 0
IsString s = length s < 2 ^ 63

-- The values that the Go types can hold. `FramesPool` hands out slices of capacity MaxStackSize.
abbrev pub IsFrames : List ℕ → Type 0
IsFrames fs = All IsUint64 fs × (length fs ≤ max_stack_size)

pub record IsGoroutine (g : Goroutine) : Type 0 where
  pub gid : IsInt64 g.gid
  pub start_time : IsInt64 g.start_time
  pub end_time : IsInt64 g.end_time

pub record IsFuncLog (f : FuncLog) : Type 0 where
  pub id : IsInt64 f.id
  pub start_time : IsInt64 f.start_time
  pub end_time : IsInt64 f.end_time
  pub parent_id : IsInt64 f.parent_id
  pub frames : IsFrames f.frames
  pub gid : IsInt64 f.gid

pub record IsRawFuncLog (r : RawFuncLog) : Type 0 where
  pub id : IsInt64 r.id
  pub tag : r.tag < 256
  pub timestamp : IsInt64 r.timestamp
  pub frames : IsFrames r.frames
  pub gid : IsInt64 r.gid
  pub txid : IsUint64 r.txid

pub record IsGoModule (m : GoModule) : Type 0 where
  pub name : IsString m.name
  pub min_pc : IsUint64 m.min_pc
  pub max_pc : IsUint64 m.max_pc

pub record IsGoFunc (f : GoFunc) : Type 0 where
  pub entry : IsUint64 f.entry
  pub name : IsString f.name

pub record IsGoLine (l : GoLine) : Type 0 where
  pub pc : IsUint64 l.pc
  pub file_id : IsUint32 l.file_id
  pub line : IsUint32 l.line

pub record IsSymbolsData (d : SymbolsData) : Type 0 where
  pub files : All IsString d.files × (length d.files < 2 ^ 63)
  pub mods : All IsGoModule d.mods × (length d.mods < 2 ^ 63)
  pub funcs : All IsGoFunc d.funcs × (length d.funcs < 2 ^ 63)
  pub lines : All IsGoLine d.lines × (length d.lines < 2 ^ 63)
