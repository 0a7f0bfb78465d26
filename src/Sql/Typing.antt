-- ===== src/Sql/Typing.antt =====
-- When an expression is well typed for the rows of a table.
use goapptrace.Base.{ℕ, ◌<◌, ◌≡◌, ◌⊎◌, Bool, true, false, List, Option, none, some, length}
use goapptrace.Symbols.Validity.{IsValidTable}
use goapptrace.Sql.{
  SqlType, bool_type, big_int_type, string_type, datetime_type, sql_bool, sql_string, value_type,
}
use goapptrace.Sql.Rows.{
  Row, func_log_row, goroutine_row, go_func_row, go_module_row, Getter, calls_starttime,
  calls_endtime, frames_package, frames_func, frames_file, frames_line, frames_pc, goroutines_gid,
  goroutines_starttime, goroutines_endtime, goroutines_exectime, funcs_name, funcs_shortname,
  funcs_package, funcs_path, modules_module,
}
use goapptrace.Sql.Expressions.{
  Operator, equal, less_than, greater_than, less_equal, greater_equal, not_equal, null_safe_equal,
  like, not_like, regexp, not_regexp, SqlAny, literal, sql_field, and_op, or_op, not_op, comp_op,
  range_op, func_frame, func_call, func_now, func_add_time, func_sub_time,
}
use goapptrace.Sql.Evaluation.{Libraries, State, Comparison, of_type, glob_like, matches}

-- The four kinds of rows.
pub data Kind : Type 0 where
  of_func_logs : Kind
  of_goroutines : Kind
  of_go_funcs : Kind
  of_go_modules : Kind

abbrev pub getter_kind : Getter → Kind
getter_kind goroutines_gid = of_goroutines
getter_kind goroutines_starttime = of_goroutines
getter_kind goroutines_endtime = of_goroutines
getter_kind goroutines_exectime = of_goroutines
getter_kind funcs_name = of_go_funcs
getter_kind funcs_shortname = of_go_funcs
getter_kind funcs_package = of_go_funcs
getter_kind funcs_path = of_go_funcs
getter_kind modules_module = of_go_modules
getter_kind g = of_func_logs

abbrev pub getter_type : Getter → SqlType
getter_type calls_starttime = datetime_type
getter_type calls_endtime = datetime_type
getter_type frames_package = string_type
getter_type frames_func = string_type
getter_type frames_file = string_type
getter_type goroutines_starttime = datetime_type
getter_type goroutines_endtime = datetime_type
getter_type funcs_name = string_type
getter_type funcs_shortname = string_type
getter_type funcs_package = string_type
getter_type funcs_path = string_type
getter_type modules_module = string_type
getter_type g = big_int_type

-- Whether a getter reads the frame at the offset.
abbrev pub reads_frame : Getter → Bool
reads_frame frames_package = true
reads_frame frames_func = true
reads_frame frames_file = true
reads_frame frames_line = true
reads_frame frames_pc = true
reads_frame g = false

-- A row with a symbol table that Load accepts, whose offset is that of a frame, if `framed`.
abbrev pub IsRow : Kind → Bool → Row → Type 0
IsRow k framed (func_log_row f s offset) =
    (k ≡ of_func_logs) × IsValidTable s.table × ((framed ≡ false) ⊎ (offset < length f.frames))
IsRow k framed (goroutine_row g) = k ≡ of_goroutines
IsRow k framed (go_func_row f s) = (k ≡ of_go_funcs) × IsValidTable s.table
IsRow k framed (go_module_row m) = k ≡ of_go_modules

abbrev pub IsField : Kind → Bool → SqlType → Getter → Type 0
IsField k framed t g =
    (getter_kind g ≡ k) × ((reads_frame g ≡ false) ⊎ (framed ≡ true)) × (getter_type g ≡ t)

-- An operand that is no bool.
abbrev pub IsOperand : Kind → Bool → SqlType → SqlAny → Type 0
IsOperand k framed t (literal v) = value_type v ≡ t
IsOperand k framed t (sql_field f (some g)) = IsField k framed t g
IsOperand k framed t e = ⊥

-- The operators that compare two values of the type.
abbrev pub compares : SqlType → Operator → Bool
compares bool_type equal = true
compares bool_type not_equal = true
compares bool_type null_safe_equal = true
compares big_int_type equal = true
compares big_int_type less_than = true
compares big_int_type greater_than = true
compares big_int_type less_equal = true
compares big_int_type greater_equal = true
compares big_int_type not_equal = true
compares big_int_type null_safe_equal = true
compares string_type equal = true
compares string_type not_equal = true
compares string_type null_safe_equal = true
compares t op = false

abbrev pub is_like : Operator → Bool
is_like like = true
is_like not_like = true
is_like op = false

abbrev pub is_regexp : Operator → Bool
is_regexp regexp = true
is_regexp not_regexp = true
is_regexp op = false

-- An expression whose Type is bool.
abbrev pub has_bool_type : SqlAny → Bool
has_bool_type (literal (sql_bool b)) = true
has_bool_type (literal v) = false
has_bool_type (sql_field f g) = false
has_bool_type func_now = false
has_bool_type func_add_time = false
has_bool_type func_sub_time = false
has_bool_type e = true

-- A regular expression is a constant that compiles.
abbrev pub IsRegexp : Libraries → SqlAny → Type 0
IsRegexp lib (literal (sql_string p)) = (m : (List ℕ → Bool)) × (lib.compile p ≡ some m)
IsRegexp lib e = ⊥

-- The type and the operator of the CompOp at an address.
abbrev pub Typing : Type 0
Typing = ℕ → Option (SqlType × Operator)

module _ (lib : Libraries) (k : Kind) (typing : Typing) where
  -- A comparison of operands of the type; `A` and `B` say that they are conditions.
  abbrev pub IsComparison : Bool → SqlType → Operator → Type 0 → Type 0 → SqlAny → SqlAny → Type 0
  IsComparison framed bool_type op A B a b =
      (compares bool_type op ≡ true) × A × B × (has_bool_type a ≡ true) × (has_bool_type b ≡ true)
  IsComparison framed big_int_type op A B a b =
      (compares big_int_type op ≡ true)
      × IsOperand k framed big_int_type a
      × IsOperand k framed big_int_type b
  IsComparison framed string_type op A B a b =
      ((compares string_type op ≡ true)
        ⊎ ((is_like op ≡ true) ⊎ ((is_regexp op ≡ true) × IsRegexp lib b)))
      × IsOperand k framed string_type a
      × IsOperand k framed string_type b
  IsComparison framed datetime_type op A B a b = ⊥

  -- An expression that Bool can be called on.
  abbrev pub IsCondition : Bool → SqlAny → Type 0
  IsCondition framed (literal v) = (value_type v ≡ bool_type) ⊎ (value_type v ≡ big_int_type)
  IsCondition framed (sql_field f none) = ⊥
  IsCondition framed (sql_field f (some g)) = IsField k framed big_int_type g
  IsCondition framed (and_op a b) = IsCondition framed a × IsCondition framed b
  IsCondition framed (or_op a b) = IsCondition framed a × IsCondition framed b
  IsCondition framed (not_op a) = IsCondition framed a
  IsCondition framed (comp_op i op a b) =
      (t : SqlType) × (typing i ≡ some (t, op))
      × IsComparison framed t op (IsCondition framed a) (IsCondition framed b) a b
  IsCondition framed (range_op a b c) =
      IsOperand k framed big_int_type a
      × IsOperand k framed big_int_type b
      × IsOperand k framed big_int_type c
  IsCondition framed (func_frame has_row a) =
      (has_row ≡ true) × (k ≡ of_func_logs) × IsCondition true a
  IsCondition framed (func_call has_row a) = IsCondition framed a
  IsCondition framed func_now = ⊥
  IsCondition framed func_add_time = ⊥
  IsCondition framed func_sub_time = ⊥

  -- The comparison that a CompOp of the type and the operator may keep.
  abbrev pub Fits : SqlType → Operator → Comparison → Type 0
  Fits t op (of_type t' op') = (t ≡ t') × (op ≡ op') × (compares t op ≡ true)
  Fits t op (glob_like b p) = t ≡ string_type
  Fits t op (matches b m) = t ≡ string_type

  pub record IsState (framed : Bool) (s : State) : Type 0 where
    pub row : IsRow k framed s.row
    pub comparisons :
        (i : ℕ) (c : Comparison) (t : SqlType) (op : Operator)
        → s.compare i ≡ some c
        → typing i ≡ some (t, op)
        → Fits t op c
