-- ===== src/Sql/Fields.antt =====
-- tracer/sql/row.go: Field, which makes the getter of a named field, and panics on a name that the
-- table does not have.
use Prim.Native.String.{String, ◌++◌}
use text.Mathlib.Text.{◌==◌}
use goapptrace.Base.{List, [], ◌∷◌, Outcome, ok, panic, ◌>>=◌, if◌then◌else◌}
use goapptrace.Sql.Rows.{
  Row, func_log_row, goroutine_row, go_func_row, go_module_row, Getter, calls_id, calls_gid,
  calls_starttime, calls_endtime, calls_exectime, frames_id, frames_offset, frames_package,
  frames_func, frames_file, frames_line, frames_pc, goroutines_gid, goroutines_starttime,
  goroutines_endtime, goroutines_exectime, funcs_name, funcs_shortname, funcs_package, funcs_path,
  modules_module,
}

-- The table, the name in it, and the name that is shown, if that is not empty
pub record Field : Type 0 where
  pub table : String
  pub name : String
  pub alias_name : String

-- LongName and String
abbrev pub long_name : Field → String
long_name f = f.table ++ "." ++ f.name

abbrev pub field_string : Field → String
field_string f = if f.alias_name == "" then long_name f else f.alias_name

-- The names in each table
abbrev pub calls_getters : List (String × Getter)
calls_getters =
    ("id", calls_id)
    ∷ ("gid", calls_gid)
    ∷ ("starttime", calls_starttime)
    ∷ ("endtime", calls_endtime)
    ∷ ("exectime", calls_exectime)
    ∷ []

abbrev pub frames_getters : List (String × Getter)
frames_getters =
    ("id", frames_id)
    ∷ ("offset", frames_offset)
    ∷ ("package", frames_package)
    ∷ ("func", frames_func)
    ∷ ("file", frames_file)
    ∷ ("line", frames_line)
    ∷ ("pc", frames_pc)
    ∷ []

abbrev pub goroutines_getters : List (String × Getter)
goroutines_getters =
    ("gid", goroutines_gid)
    ∷ ("starttime", goroutines_starttime)
    ∷ ("endtime", goroutines_endtime)
    ∷ ("exectime", goroutines_exectime)
    ∷ []

abbrev pub funcs_getters : List (String × Getter)
funcs_getters =
    ("name", funcs_name)
    ∷ ("shortname", funcs_shortname)
    ∷ ("package", funcs_package)
    ∷ ("path", funcs_path)
    ∷ []

abbrev pub modules_getters : List (String × Getter)
modules_getters = ("module", modules_module) ∷ []

-- A switch on a name
unfoldable pub switch : String → List (String × Getter) → Outcome Getter
switch name [] = panic
switch name ((s, g) ∷ cases) = if name == s then ok g else switch name cases

unfoldable pub func_log_field : Field → Outcome Getter
unfolding switch
func_log_field f =
    if f.table == "calls"
    then switch f.name calls_getters
    else if f.table == "frames"
    then switch f.name frames_getters
    else panic

unfoldable pub goroutine_field : Field → Outcome Getter
unfolding switch
goroutine_field f = if f.table == "goroutines" then switch f.name goroutines_getters else panic

unfoldable pub go_func_field : Field → Outcome Getter
unfolding switch
go_func_field f = if f.table == "funcs" then switch f.name funcs_getters else panic

unfoldable pub go_module_field : Field → Outcome Getter
unfolding switch
go_module_field f = if f.table == "modules" then switch f.name modules_getters else panic

-- SqlRow.Field of each kind of row
unfoldable pub field_of : Row → Field → Outcome Getter
unfolding func_log_field goroutine_field go_func_field go_module_field
field_of (func_log_row f s offset) = func_log_field
field_of (goroutine_row g) = goroutine_field
field_of (go_func_row f s) = go_func_field
field_of (go_module_row m) = go_module_field

-- Fields
unfoldable pub fields_of : Row → List Field → Outcome (List Getter)
unfolding field_of
fields_of r [] = ok []
fields_of r (f ∷ fs) = field_of r f >>= λ g. fields_of r fs >>= λ gs. ok (g ∷ gs)
