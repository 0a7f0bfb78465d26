-- ===== src/Sql/Expressions.antt =====
-- The expressions of tracer/sql/type.go, op.go and func.go behind SqlAny, and what WithRow makes of
-- them.
use goapptrace.Base.{ℕ, Bool, true, false, Option, some, Outcome, ok, panic, ◌>>=◌, ◌&&◌}
use goapptrace.Sql.{SqlValue}
use goapptrace.Sql.Rows.{Row, func_log_row, Getter}
use goapptrace.Sql.Fields.{Field, field_of}

-- The comparison operators of sqlparser.
pub data Operator : Type 0 where
  equal : Operator
  less_than : Operator
  greater_than : Operator
  less_equal : Operator
  greater_equal : Operator
  not_equal : Operator
  null_safe_equal : Operator
  like : Operator
  not_like : Operator
  regexp : Operator
  not_regexp : Operator
  other_operator : Operator

-- A CompOp has an address, under which it keeps its `compare`. FRAME and CALL keep whether they have a
-- row. The Parse functions of ADDTIME and SUBTIME leave Base and Diff nil.
pub data SqlAny : Type 0 where
  literal : SqlValue → SqlAny
  sql_field : Field → Option Getter → SqlAny
  and_op : SqlAny → SqlAny → SqlAny
  or_op : SqlAny → SqlAny → SqlAny
  not_op : SqlAny → SqlAny
  comp_op : (address : ℕ) → Operator → SqlAny → SqlAny → SqlAny
  range_op : (left from to : SqlAny) → SqlAny
  func_frame : (has_row : Bool) → SqlAny → SqlAny
  func_call : (has_row : Bool) → SqlAny → SqlAny
  func_now : SqlAny
  func_add_time : SqlAny
  func_sub_time : SqlAny

-- row.(*SqlFuncLogRow)
unfoldable pub is_func_log_row : Row → Outcome Bool
is_func_log_row (func_log_row f s offset) = ok true
is_func_log_row r = panic

-- WithRow
unfoldable pub with_row : Row → SqlAny → Outcome SqlAny
unfolding is_func_log_row
with_row r (literal v) = ok (literal v)
with_row r (sql_field f getter) = field_of r f >>= λ g. ok (sql_field f (some g))
with_row r (and_op a b) = with_row r a >>= λ a'. with_row r b >>= λ b'. ok (and_op a' b')
with_row r (or_op a b) = with_row r a >>= λ a'. with_row r b >>= λ b'. ok (or_op a' b')
with_row r (not_op a) = with_row r a >>= λ a'. ok (not_op a')
with_row r (comp_op i op a b) =
    with_row r a >>= λ a'. with_row r b >>= λ b'. ok (comp_op i op a' b')
with_row r (range_op a b c) =
    with_row r a >>= λ a'. with_row r b >>= λ b'. with_row r c >>= λ c'. ok (range_op a' b' c')
with_row r (func_frame has_row a) =
    is_func_log_row r >>= λ h. with_row r a >>= λ a'. ok (func_frame h a')
with_row r (func_call has_row a) =
    is_func_log_row r >>= λ h. with_row r a >>= λ a'. ok (func_call h a')
with_row r func_now = ok func_now
with_row r func_add_time = ok func_add_time
with_row r func_sub_time = ok func_sub_time

-- Const
unfoldable pub const : SqlAny → Bool
const (literal v) = true
const (and_op a b) = const a && const b
const (or_op a b) = const a && const b
const (not_op a) = const a
const (comp_op i op a b) = const a && const b
const (range_op a b c) = const a && (const b && const c)
const e = false
