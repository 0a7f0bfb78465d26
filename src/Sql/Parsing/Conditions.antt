-- ===== src/Sql/Parsing/Conditions.antt =====
-- parseWhereExpr of tracer/sql/parse.go, with the functions of func.go. A new CompOp takes the next
-- address. What EqualString and ParseInt answer is given.
use Prim.Native.String.{String}
use text.Mathlib.Text.{◌==◌}
use goapptrace.Base.{
  ℕ, ◌+◌, Bool, false, List, [], ◌∷◌, Option, none, some, Outcome, ok, panic, ◌>>=◌, or_panic,
  if◌then◌else◌,
}
use goapptrace.Base.Int.{ℤ}
use goapptrace.Sql.{sql_big_int, sql_string}
use goapptrace.Sql.Expressions.{
  SqlAny, literal, sql_field, and_op, or_op, not_op, comp_op, range_op, func_frame, func_call,
  func_now, func_add_time, func_sub_time,
}
use goapptrace.Sql.Parsing.Syntax.{
  ValType, str_val, int_val, other_val, RangeOperator, between, not_between, other_range, Expr,
  SelectExprs, SelectExpr, and_expr, or_expr, not_expr, paren_expr, comparison_expr, range_cond,
  sql_val, col_name, interval_expr, func_expr, other_expr, no_exprs, exprs, star_expr, aliased_expr,
  other_select_expr,
}
use goapptrace.Sql.Parsing.Tables.{Table, find_table_by_name}

-- An empty table is that of the caller.
pub record SqlFunc : Type 0 where
  pub name : String
  pub table : String
  pub parse : List SqlAny → Outcome SqlAny

unfoldable pub parse_frame : List SqlAny → Outcome SqlAny
parse_frame [] = panic
parse_frame (a ∷ []) = ok (func_frame false a)
parse_frame (a ∷ b ∷ args) = panic

unfoldable pub parse_call : List SqlAny → Outcome SqlAny
parse_call [] = panic
parse_call (a ∷ []) = ok (func_call false a)
parse_call (a ∷ b ∷ args) = panic

unfoldable pub parse_now : List SqlAny → Outcome SqlAny
parse_now [] = ok func_now
parse_now (a ∷ args) = panic

unfoldable pub parse_add_time : List SqlAny → Outcome SqlAny
parse_add_time (a ∷ b ∷ []) = ok func_add_time
parse_add_time args = panic

unfoldable pub parse_sub_time : List SqlAny → Outcome SqlAny
parse_sub_time (a ∷ b ∷ []) = ok func_sub_time
parse_sub_time args = panic

abbrev pub sql_funcs : List SqlFunc
sql_funcs =
    record { name = "FRAME"; table = "frames"; parse = parse_frame }
    ∷ record { name = "CALL"; table = "calls"; parse = parse_call }
    ∷ record { name = "NOW"; table = ""; parse = parse_now }
    ∷ record { name = "ADDTIME"; table = ""; parse = parse_add_time }
    ∷ record { name = "SUBTIME"; table = ""; parse = parse_sub_time }
    ∷ []

-- ColIdent.EqualString and strconv.ParseInt in base 10 for an int64
pub record Names : Type 0 where
  pub equal_string : String → String → Bool
  pub parse_int : List ℕ → Option ℤ

module _ (lib : Names) where
  -- The last function of the name, as the loop goes on after it has found one.
  unfoldable pub find_func : String → List SqlFunc → Option SqlFunc → Option SqlFunc
  find_func name [] found = found
  find_func name (f ∷ fs) found =
      find_func name fs (if lib.equal_string name f.name then some f else found)

  abbrev pub parse_val : ValType → List ℕ → Outcome SqlAny
  parse_val str_val s = ok (literal (sql_string s))
  parse_val int_val s = or_panic (lib.parse_int s) >>= λ n. ok (literal (sql_big_int n))
  parse_val other_val s = panic

  abbrev pub range_of : RangeOperator → SqlAny → Outcome SqlAny
  range_of between a = ok a
  range_of not_between a = ok (not_op a)
  range_of other_range a = panic

  -- The table that completes the columns of a function's arguments.
  abbrev pub args_table : SqlFunc → Table → Outcome Table
  args_table f t = if f.table == "" then ok t else or_panic (find_table_by_name f.table)

  -- The checks before the arguments are parsed.
  abbrev pub checked_func : String → Bool → String → Outcome SqlFunc
  checked_func qualifier distinct name =
      if qualifier == ""
      then (if distinct then panic else or_panic (find_func name sql_funcs none))
      else panic

  -- With the next address that is free.
  unfoldable mutual
    unfolding find_table_by_name

    pub parse_where_expr : Table → Expr → ℕ → Outcome (SqlAny × ℕ)
    parse_where_expr t (and_expr a b) n =
        parse_where_expr t a n >>= λ l. parse_where_expr t b l.1 >>= λ r. ok (and_op l.0 r.0, r.1)
    parse_where_expr t (or_expr a b) n =
        parse_where_expr t a n >>= λ l. parse_where_expr t b l.1 >>= λ r. ok (or_op l.0 r.0, r.1)
    parse_where_expr t (not_expr a) n = parse_where_expr t a n >>= λ l. ok (not_op l.0, l.1)
    parse_where_expr t (paren_expr a) n = parse_where_expr t a n
    parse_where_expr t (comparison_expr op a b) n = parse_where_expr t a n >>= λ l.
        parse_where_expr t b l.1 >>= λ r. ok (comp_op r.1 op l.0 r.0, r.1 + 1)
    parse_where_expr t (range_cond op a b c) n = parse_where_expr t a n >>= λ l.
        parse_where_expr t b l.1 >>= λ f.
        parse_where_expr t c f.1 >>= λ e. range_of op (range_op l.0 f.0 e.0) >>= λ r. ok (r, e.1)
    parse_where_expr t (sql_val type s) n = parse_val type s >>= λ v. ok (v, n)
    parse_where_expr t (col_name qualifier name) n = ok (
      sql_field
          (record {
            table = if qualifier == "" then t.name else qualifier;
            name = name;
            alias_name = "";
          })
          none,
      n,
    )
    parse_where_expr t interval_expr n = panic
    parse_where_expr t (func_expr qualifier distinct name args) n =
        checked_func qualifier distinct name >>= λ f. args_table f t >>= λ t'.
        parse_args t' args n >>= λ args. f.parse args.0 >>= λ r. ok (r, args.1)
    parse_where_expr t other_expr n = panic

    pub parse_select_expr : Table → SelectExpr → ℕ → Outcome (SqlAny × ℕ)
    parse_select_expr t (star_expr db name) n = panic
    parse_select_expr t (aliased_expr alias a) n = parse_where_expr t a n
    parse_select_expr t other_select_expr n = panic

    pub parse_args : Table → SelectExprs → ℕ → Outcome (List SqlAny × ℕ)
    parse_args t no_exprs n = ok ([], n)
    parse_args t (exprs a rest) n =
        parse_select_expr t a n >>= λ l. parse_args t rest l.1 >>= λ r. ok (l.0 ∷ r.0, r.1)
