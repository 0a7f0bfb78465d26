-- ===== src/Sql.antt =====
-- tracer/sql/type.go: the types and values of an SQL expression, and the errors of errSqlCast.
pub mod Rows
pub mod Fields
pub mod Expressions
pub mod Evaluation
pub mod Typing
pub mod Readings
pub mod Comparisons
pub mod Soundness
pub mod Parsing
use goapptrace.Base.{ℕ, Bool, true, false, not, List, Outcome, ok, panic}
use goapptrace.Base.Int.{ℤ, pos, ◌==ℤ◌}

pub data SqlType : Type 0 where
  bool_type : SqlType
  big_int_type : SqlType
  string_type : SqlType
  datetime_type : SqlType

-- SqlBool, SqlBigInt, SqlString and SqlDatetime
pub data SqlValue : Type 0 where
  sql_bool : Bool → SqlValue
  sql_big_int : ℤ → SqlValue
  sql_string : List ℕ → SqlValue
  sql_datetime : ℤ → SqlValue

unfoldable pub value_bool : SqlValue → Outcome Bool
value_bool (sql_bool b) = ok b
value_bool (sql_big_int n) = ok (not (n ==ℤ pos 0))
value_bool (sql_string s) = panic
value_bool (sql_datetime d) = panic

unfoldable pub value_big_int : SqlValue → Outcome ℤ
value_big_int (sql_bool b) = panic
value_big_int (sql_big_int n) = ok n
value_big_int (sql_string s) = panic
value_big_int (sql_datetime d) = panic

unfoldable pub value_string : SqlValue → Outcome (List ℕ)
value_string (sql_bool b) = panic
value_string (sql_big_int n) = panic
value_string (sql_string s) = ok s
value_string (sql_datetime d) = panic

unfoldable pub value_datetime : SqlValue → Outcome ℤ
value_datetime (sql_bool b) = panic
value_datetime (sql_big_int n) = panic
value_datetime (sql_string s) = panic
value_datetime (sql_datetime d) = ok d

abbrev pub value_type : SqlValue → SqlType
value_type (sql_bool b) = bool_type
value_type (sql_big_int n) = big_int_type
value_type (sql_string s) = string_type
value_type (sql_datetime d) = datetime_type

-- t == t2
unfoldable pub same_type : SqlType → SqlType → Bool
same_type bool_type bool_type = true
same_type big_int_type big_int_type = true
same_type string_type string_type = true
same_type datetime_type datetime_type = true
same_type a b = false
