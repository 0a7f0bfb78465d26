-- ===== src/Examples/Parsing.antt =====
-- SELECT frames.func, id FROM frames, on a call of one function, and a WHERE clause of it:
-- calls.gid = 1 AND FRAME(frames.func LIKE 'f').
use Prim.Native.String.{String}
use text.Mathlib.Text.{◌==◌}
use text.Mathlib.TextEquality.{eq_iff}
use goapptrace.Base.{
  ℕ, ◌≡◌, ◌≢◌, refl, arith, false, List, [], ◌∷◌, Option, none, some, ok, inr, All,
}
use goapptrace.Base.Int.{ℤ, pos, negsuc}
use goapptrace.Sql.{sql_big_int, sql_string}
use goapptrace.Sql.Rows.{func_log_row}
use goapptrace.Sql.Expressions.{
  SqlAny, equal, like, literal, sql_field, and_op, comp_op, func_frame,
}
use goapptrace.Sql.Parsing.Syntax.{
  Select, col_name, no_exprs, exprs, aliased_expr, aliased_table_expr, table_name,
}
use goapptrace.Sql.Parsing.Tables.{frames, is_one_of, find_table_by_name, accepted}
use goapptrace.Sql.Parsing.Conditions.{Names, parse_where_expr}
use goapptrace.Sql.Parsing.Statements.{Statement, parse}
use goapptrace.Sql.Parsing.Columns.{IsReadable}
use goapptrace.Sql.Parsing.Accepted.{parse-IsReadable}
use goapptrace.Sql.Parsing.Printing.{IsNames, IsFresh, to_expr, parse_where_expr-to_expr}
use goapptrace.Examples.Searching.{symbols, call, table-IsValidTable}

-- A text of one number is not negative, one of two is.
abbrev parse_int : List ℕ → Option ℤ
parse_int (n ∷ []) = some (pos n)
parse_int (k ∷ n ∷ []) = some (negsuc n)
parse_int s = none

abbrev format_int : ℤ → List ℕ
format_int (pos n) = n ∷ []
format_int (negsuc n) = 0 ∷ n ∷ []

abbrev names : Names
names = record { equal_string = ◌==◌; parse_int = parse_int }

parse-format : (n : ℤ) → parse_int (format_int n) ≡ some n
parse-format (pos n) = refl
parse-format (negsuc n) = refl

names-IsNames : IsNames names format_int
names-IsNames = record { parse-format = λ n h. parse-format n; equal_names = λ a b ha hb. refl }

abbrev sel : Select
sel = record {
  distinct = "";
  select_exprs =
      exprs (aliased_expr "" (col_name "frames" "func"))
        (exprs (aliased_expr "" (col_name "" "id")) no_exprs);
  from = aliased_table_expr "" (table_name "" "frames") ∷ [];
  where_clause = none;
  has_group_by = false;
  has_having = false;
  has_order_by = false;
  limit = none;
}

abbrev statement : Statement
statement = record {
  table = frames;
  fields =
      record { table = "frames"; name = "func"; alias_name = "" }
      ∷ record { table = "frames"; name = "id"; alias_name = "id" }
      ∷ [];
  where_clause = none;
  offset = pos 0;
  rows = pos 0;
}

parse-sel : parse names sel ≡ ok (accepted statement)
unfolding parse find_table_by_name is_one_of
parse-sel = refl

parse-IsReadable_example : All (IsReadable (λ n. []) (func_log_row call symbols 1)) statement.fields
parse-IsReadable_example =
    parse-IsReadable names (λ n. []) sel statement (func_log_row call symbols 1) parse-sel
      (refl, table-IsValidTable, inr (omega arith))

abbrev gid_clause : SqlAny
gid_clause =
    comp_op 0 equal (sql_field (record { table = "calls"; name = "gid"; alias_name = "" }) none)
      (literal (sql_big_int (pos 1)))

abbrev func_clause : SqlAny
func_clause =
    comp_op 1 like (sql_field (record { table = "frames"; name = "func"; alias_name = "" }) none)
      (literal (sql_string (b'f' ∷ [])))

clause-IsFresh : IsFresh 0 (and_op gid_clause (func_frame false func_clause)) 2
clause-IsFresh =
    let named : (s : String) → (s == "") ≡ false → s ≢ "" = λ s h e. ground (arith, eq_iff s "") in
    (
      1,
      (0, (named "calls" refl, refl, refl), ((omega arith, omega arith), refl), refl),
      (refl, (1, (named "frames" refl, refl, refl), refl, refl)),
    )

parse_where_expr-to_expr_example :
    parse_where_expr names frames
      (to_expr format_int (and_op gid_clause (func_frame false func_clause)))
      0
    ≡ ok (and_op gid_clause (func_frame false func_clause), 2)
parse_where_expr-to_expr_example =
    parse_where_expr-to_expr names format_int names-IsNames
      (and_op gid_clause (func_frame false func_clause)) frames 0 2 clause-IsFresh
