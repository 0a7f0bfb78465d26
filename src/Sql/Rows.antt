-- ===== src/Sql/Rows.antt =====
-- tracer/sql/row.go: the rows, and the getters of their fields. A getter reads the row that it was
-- made for, whatever that holds at the time.
use goapptrace.Base.{
  ℕ, ◌+◌, ◌-◌, ◌%◌, ◌^◌, List, Option, none, some, Outcome, ok, panic, ◌>>=◌, or_panic, get_elem?,
  length,
}
use goapptrace.Base.Int.{ℤ, pos, to_uint64, to_int64}
use goapptrace.Types.{FuncLog, Goroutine, GoFunc, GoModule}
use goapptrace.Symbols.{Symbols, go_func, file, line, file_line, unknown}
use goapptrace.Symbols.Split.{package_path, short_name}
use goapptrace.Sql.{SqlValue, sql_big_int, sql_string, sql_datetime}

-- SqlFuncLogRow, SqlGoroutineRow, SqlGoFuncRow and SqlGoModuleRow
pub data Row : Type 0 where
  func_log_row : FuncLog → Symbols → ℕ → Row
  goroutine_row : Goroutine → Row
  go_func_row : GoFunc → Symbols → Row
  go_module_row : GoModule → Row

pub data Getter : Type 0 where
  calls_id : Getter
  calls_gid : Getter
  calls_starttime : Getter
  calls_endtime : Getter
  calls_exectime : Getter
  frames_id : Getter
  frames_offset : Getter
  frames_package : Getter
  frames_func : Getter
  frames_file : Getter
  frames_line : Getter
  frames_pc : Getter
  goroutines_gid : Getter
  goroutines_starttime : Getter
  goroutines_endtime : Getter
  goroutines_exectime : Getter
  funcs_name : Getter
  funcs_shortname : Getter
  funcs_package : Getter
  funcs_path : Getter
  modules_module : Getter

-- EndTime - StartTime, an int64
abbrev pub exectime : ℤ → ℤ → ℤ
exectime end start = to_int64 ((to_uint64 end + 2 ^ 64 - to_uint64 start) % 2 ^ 64)

-- What is shown of the function of a PC: "?" if there is none.
abbrev pub of_func : (List ℕ → List ℕ) → Option GoFunc → SqlValue
of_func show none = sql_string unknown
of_func show (some f) = sql_string (show f.name)

-- The fields of the frame at the offset
unfoldable pub frame_value : Getter → Symbols → ℕ → Outcome SqlValue
frame_value frames_package s pc = go_func s pc >>= λ f. ok (of_func package_path f)
frame_value frames_func s pc = go_func s pc >>= λ f. ok (of_func (λ n. n) f)
frame_value frames_file s pc = file s pc >>= λ f. ok (sql_string f)
frame_value frames_line s pc = line s pc >>= λ n. ok (sql_big_int n)
frame_value frames_pc s pc = ok (sql_big_int (to_int64 pc))
frame_value g s pc = panic

unfoldable pub func_log_value : Getter → FuncLog → Symbols → ℕ → Outcome SqlValue
unfolding frame_value
func_log_value calls_id f s offset = ok (sql_big_int f.id)
func_log_value calls_gid f s offset = ok (sql_big_int f.gid)
func_log_value calls_starttime f s offset = ok (sql_datetime f.start_time)
func_log_value calls_endtime f s offset = ok (sql_datetime f.end_time)
func_log_value calls_exectime f s offset = ok (sql_big_int (exectime f.end_time f.start_time))
func_log_value frames_id f s offset = ok (sql_big_int f.id)
func_log_value frames_offset f s offset = ok (sql_big_int (pos offset))
func_log_value g f s offset = or_panic (get_elem? f.frames offset) >>= λ pc. frame_value g s pc

unfoldable pub goroutine_value : Getter → Goroutine → Outcome SqlValue
goroutine_value goroutines_gid g = ok (sql_big_int g.gid)
goroutine_value goroutines_starttime g = ok (sql_datetime g.start_time)
goroutine_value goroutines_endtime g = ok (sql_datetime g.end_time)
goroutine_value goroutines_exectime g = ok (sql_big_int (exectime g.end_time g.start_time))
goroutine_value g r = panic

unfoldable pub go_func_value : (ℕ → List ℕ) → Getter → GoFunc → Symbols → Outcome SqlValue
go_func_value format_uint funcs_name f s = ok (sql_string f.name)
go_func_value format_uint funcs_shortname f s = ok (sql_string (short_name f.name))
go_func_value format_uint funcs_package f s = ok (sql_string (package_path f.name))
go_func_value format_uint funcs_path f s =
    file_line format_uint s f.entry >>= λ p. ok (sql_string p)
go_func_value format_uint g f s = panic

unfoldable pub go_module_value : Getter → GoModule → Outcome SqlValue
go_module_value modules_module m = ok (sql_string m.name)
go_module_value g m = panic

-- The call of a getter; no getter is called on a row of another kind.
unfoldable pub read_field : (ℕ → List ℕ) → Getter → Row → Outcome SqlValue
unfolding func_log_value goroutine_value go_func_value go_module_value
read_field format_uint g (func_log_row f s offset) = func_log_value g f s offset
read_field format_uint g (goroutine_row r) = goroutine_value g r
read_field format_uint g (go_func_row f s) = go_func_value format_uint g f s
read_field format_uint g (go_module_row m) = go_module_value g m

-- SetOffset
unfoldable pub set_offset : ℕ → Row → Outcome Row
set_offset i (func_log_row f s offset) = ok (func_log_row f s i)
set_offset i r = panic

-- MaxOffset
unfoldable pub max_offset : Row → Outcome ℕ
max_offset (func_log_row f s offset) = ok (length f.frames)
max_offset r = panic
