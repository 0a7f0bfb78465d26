-- ===== src/Sql/Evaluation.antt =====
-- tracer/sql/op.go and func.go: the value of an expression on the row that it was given. Bool of a
-- FRAME moves the offset of the row, and Bool of a CompOp keeps its comparison for the next rows.
use goapptrace.Base.{
  ℕ, zero, suc, ◌+◌, Bool, true, false, not, ◌&&◌, ◌||◌, List, [], ◌∷◌, map, Option, none, some,
  Outcome, ok, panic, ◌>>=◌, ◌==◌, if◌then◌else◌,
}
use goapptrace.Base.Int.{ℤ, ltb_ℤ, leb_ℤ, ◌==ℤ◌}
use goapptrace.Sql.{
  SqlType, bool_type, big_int_type, string_type, datetime_type, value_bool, value_big_int,
  value_string, value_datetime, value_type, same_type,
}
use goapptrace.Sql.Rows.{Row, read_field, set_offset, max_offset}
use goapptrace.Sql.Expressions.{
  Operator, equal, less_than, greater_than, less_equal, greater_equal, not_equal, null_safe_equal,
  like, not_like, regexp, not_regexp, SqlAny, literal, sql_field, and_op, or_op, not_op, comp_op,
  range_op, func_frame, func_call, func_now, func_add_time, func_sub_time,
}

-- glob4go.Glob, regexp.Compile with MatchString, strconv.FormatUint and the current time.
pub record Libraries : Type 0 where
  pub glob : List ℕ → List ℕ → Bool
  pub compile : List ℕ → Option (List ℕ → Bool)
  pub format_uint : ℕ → List ℕ
  pub now : ℤ

-- The function that compareFn returns: it reads both sides each time, or the left one alone.
pub data Comparison : Type 0 where
  of_type : SqlType → Operator → Comparison
  glob_like : Bool → List ℕ → Comparison
  matches : Bool → (List ℕ → Bool) → Comparison

-- The row, and what the CompOps have in `compare`.
pub record State : Type 0 where
  pub row : Row
  pub compare : ℕ → Option Comparison

abbrev pub keep_comparison : ℕ → Comparison → State → State
keep_comparison i c s = record s { compare = λ j. if i == j then some c else s.compare j }

-- sqlPattern2glob
unfoldable pub glob_byte : ℕ → ℕ
glob_byte c = if c == b'%' then b'*' else if c == b'_' then b'?' else c

unfoldable pub sql_pattern2glob : List ℕ → List ℕ
unfolding glob_byte
sql_pattern2glob s = map glob_byte s

abbrev pub same_bool : Bool → Bool → Bool
same_bool true b = b
same_bool false b = not b

unfoldable pub same_string : List ℕ → List ℕ → Bool
same_string [] [] = true
same_string [] (y ∷ ys) = false
same_string (x ∷ xs) [] = false
same_string (x ∷ xs) (y ∷ ys) = x == y && same_string xs ys

unfoldable pub compare_bools : Operator → Bool → Bool → Outcome Bool
compare_bools equal a b = ok (same_bool a b)
compare_bools not_equal a b = ok (not (same_bool a b))
compare_bools null_safe_equal a b = ok (same_bool a b)
compare_bools op a b = panic

unfoldable pub compare_big_ints : Operator → ℤ → ℤ → Outcome Bool
compare_big_ints equal a b = ok (a ==ℤ b)
compare_big_ints less_than a b = ok (ltb_ℤ a b)
compare_big_ints greater_than a b = ok (ltb_ℤ b a)
compare_big_ints less_equal a b = ok (leb_ℤ a b)
compare_big_ints greater_equal a b = ok (leb_ℤ b a)
compare_big_ints not_equal a b = ok (not (a ==ℤ b))
compare_big_ints null_safe_equal a b = ok (a ==ℤ b)
compare_big_ints op a b = panic

unfoldable pub compare_strings : Operator → List ℕ → List ℕ → Outcome Bool
unfolding same_string
compare_strings equal a b = ok (same_string a b)
compare_strings not_equal a b = ok (not (same_string a b))
compare_strings null_safe_equal a b = ok (same_string a b)
compare_strings op a b = panic

module _ (lib : Libraries) where
  -- Type
  unfoldable pub type_of : Row → SqlAny → Outcome SqlType
  type_of r (literal v) = ok (value_type v)
  type_of r (sql_field f none) = panic
  type_of r (sql_field f (some g)) = read_field lib.format_uint g r >>= λ v. ok (value_type v)
  type_of r func_now = ok datetime_type
  type_of r func_add_time = ok datetime_type
  type_of r func_sub_time = ok datetime_type
  type_of r e = ok bool_type

  -- BigInt
  unfoldable pub big_int : Row → SqlAny → Outcome ℤ
  unfolding value_big_int
  big_int r (literal v) = value_big_int v
  big_int r (sql_field f (some g)) = read_field lib.format_uint g r >>= value_big_int
  big_int r e = panic

  -- String
  unfoldable pub string : Row → SqlAny → Outcome (List ℕ)
  unfolding value_string
  string r (literal v) = value_string v
  string r (sql_field f (some g)) = read_field lib.format_uint g r >>= value_string
  string r e = panic

  -- Datetime
  unfoldable pub datetime : Row → SqlAny → Outcome ℤ
  unfolding value_datetime
  datetime r (literal v) = value_datetime v
  datetime r (sql_field f (some g)) = read_field lib.format_uint g r >>= value_datetime
  datetime r func_now = ok lib.now
  datetime r e = panic

  -- regexp.Compile
  abbrev pub compiled : Bool → List ℕ → Outcome Comparison
  compiled is_match pattern = elim (lib.compile pattern) [
    | none ↦ panic
    | some m ↦ ok (matches is_match m)
  ]

  -- compareFn, for operands of one type
  unfoldable pub comparison : SqlType → Operator → Row → SqlAny → Outcome Comparison
  unfolding string sql_pattern2glob
  comparison bool_type equal r b = ok (of_type bool_type equal)
  comparison bool_type not_equal r b = ok (of_type bool_type not_equal)
  comparison bool_type null_safe_equal r b = ok (of_type bool_type null_safe_equal)
  comparison bool_type op r b = panic
  comparison big_int_type equal r b = ok (of_type big_int_type equal)
  comparison big_int_type less_than r b = ok (of_type big_int_type less_than)
  comparison big_int_type greater_than r b = ok (of_type big_int_type greater_than)
  comparison big_int_type less_equal r b = ok (of_type big_int_type less_equal)
  comparison big_int_type greater_equal r b = ok (of_type big_int_type greater_equal)
  comparison big_int_type not_equal r b = ok (of_type big_int_type not_equal)
  comparison big_int_type null_safe_equal r b = ok (of_type big_int_type null_safe_equal)
  comparison big_int_type op r b = panic
  comparison string_type equal r b = ok (of_type string_type equal)
  comparison string_type not_equal r b = ok (of_type string_type not_equal)
  comparison string_type null_safe_equal r b = ok (of_type string_type null_safe_equal)
  comparison string_type like r b = string r b >>= λ p. ok (glob_like true (sql_pattern2glob p))
  comparison string_type not_like r b =
      string r b >>= λ p. ok (glob_like false (sql_pattern2glob p))
  comparison string_type regexp r b = string r b >>= compiled true
  comparison string_type not_regexp r b = string r b >>= compiled false
  comparison string_type op r b = panic
  comparison datetime_type op r b = panic

  -- compareFn
  unfoldable pub compare_fn : Operator → Row → SqlAny → SqlAny → Outcome Comparison
  unfolding type_of comparison
  compare_fn op r a b = type_of r a >>= λ t.
      type_of r b >>= λ t2. (if same_type t t2 then comparison t op r b else panic)

  abbrev pub Result : Type 0
  Result = Outcome (Bool × State)

  -- The comparison of a CompOp, made if there is none.
  abbrev pub compare_of :
      Option Comparison → ℕ → Operator → SqlAny → SqlAny → State → Outcome (Comparison × State)
  compare_of none i op a b s = compare_fn op s.row a b >>= λ c. ok (c, keep_comparison i c s)
  compare_of (some c) i op a b s = ok (c, s)

  -- o.compare(); the operands' Bool is given as a function.
  unfoldable pub run_comparison :
      Comparison → (State → Result) → (State → Result) → SqlAny → SqlAny → State → Result
  unfolding big_int string compare_bools compare_big_ints compare_strings
  run_comparison (of_type bool_type op) left right a b s =
      left s >>= λ l. right l.1 >>= λ r. compare_bools op l.0 r.0 >>= λ v. ok (v, r.1)
  run_comparison (of_type big_int_type op) left right a b s =
      big_int s.row a >>= λ l. big_int s.row b >>= λ r. compare_big_ints op l r >>= λ v. ok (v, s)
  run_comparison (of_type string_type op) left right a b s =
      string s.row a >>= λ l. string s.row b >>= λ r. compare_strings op l r >>= λ v. ok (v, s)
  run_comparison (of_type datetime_type op) left right a b s = panic
  run_comparison (glob_like is_like pattern) left right a b s =
      string s.row a >>= λ l. ok (same_bool is_like (lib.glob pattern l), s)
  run_comparison (matches is_match m) left right a b s =
      string s.row a >>= λ l. ok (same_bool is_match (m l), s)

  -- The loop of FRAME over the offsets `i`, `i` + 1, ..., of which `n` are left.
  unfoldable pub frame_loop : (State → Result) → ℕ → ℕ → State → Result
  frame_loop body zero i s = ok (false, s)
  frame_loop body (suc n) i s =
      let rest = λ (t : State). frame_loop body n (i + 1) t in
      set_offset i s.row >>= λ row.
      body (record s { row = row }) >>= λ r. (if r.0 then ok r else rest r.1)

  -- Bool
  unfoldable pub eval : SqlAny → State → Result
  unfolding value_bool big_int compare_fn run_comparison frame_loop
  eval (literal v) s = value_bool v >>= λ b. ok (b, s)
  eval (sql_field f none) s = panic
  eval (sql_field f (some g)) s =
      read_field lib.format_uint g s.row >>= λ v. value_bool v >>= λ b. ok (b, s)
  eval (and_op a b) s = eval a s >>= λ l. eval b l.1 >>= λ r. ok (l.0 && r.0, r.1)
  eval (or_op a b) s = eval a s >>= λ l. eval b l.1 >>= λ r. ok (l.0 || r.0, r.1)
  eval (not_op a) s = eval a s >>= λ r. ok (not r.0, r.1)
  eval (comp_op i op a b) s =
      compare_of (s.compare i) i op a b s >>= λ c. run_comparison c.0 (eval a) (eval b) a b c.1
  eval (range_op a b c) s = big_int s.row a >>= λ v.
      big_int s.row b >>= λ from. big_int s.row c >>= λ to. ok (leb_ℤ from v && leb_ℤ v to, s)
  eval (func_frame false a) s = panic
  eval (func_frame true a) s = max_offset s.row >>= λ n. frame_loop (eval a) n 0 s
  eval (func_call has_row a) s = eval a s
  eval func_now s = panic
  eval func_add_time s = panic
  eval func_sub_time s = panic
