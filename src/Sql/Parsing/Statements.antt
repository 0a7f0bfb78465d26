-- ===== src/Sql/Parsing/Statements.antt =====
-- SelectParser of tracer/sql/parse.go: Parse with parseFrom, parseCols, parseWhere and parseLimit, and
-- the names of the columns.
use Prim.Native.String.{String}
use text.Mathlib.Text.{◌==◌}
use goapptrace.Base.{
  Bool, true, false, not, List, [], ◌∷◌, ◌++◌, map, Option, none, some, Outcome, ok, panic, ◌>>=◌,
  or_panic, if◌then◌else◌,
}
use goapptrace.Base.Int.{ℤ, pos}
use goapptrace.Sql.Fields.{Field, field_string}
use goapptrace.Sql.Expressions.{SqlAny}
use goapptrace.Sql.Parsing.Syntax.{
  int_val, Expr, sql_val, col_name, SelectExprs, SelectExpr, no_exprs, exprs, star_expr,
  aliased_expr, other_select_expr, SimpleTableExpr, table_name, subquery, other_table, TableExpr,
  aliased_table_expr, paren_table_expr, join_table_expr, other_table_expr, Where, Limit, Select,
}
use goapptrace.Sql.Parsing.Tables.{
  Table, has_field, find_table_by_name, ParseError, err_distinct, err_not_found_table, err_join,
  err_db_qualifier, err_subquery, err_column_alias, err_column_list, err_group_by, err_having,
  err_order_by, err_unsupported_stmt, not_found_table, not_found_column, recovered, Parsed,
  accepted, rejected, and_then,
}
use goapptrace.Sql.Parsing.Conditions.{Names, parse_where_expr}

-- util.PanicHandler
abbrev pub panic_handler : {A : Type 0} → Outcome A → Parsed A
panic_handler (ok a) = accepted a
panic_handler panic = rejected recovered

abbrev pub parse_table : SimpleTableExpr → Outcome (Parsed String)
parse_table (table_name qualifier name) =
    ok (if qualifier == "" then accepted name else rejected err_db_qualifier)
parse_table subquery = ok (rejected err_subquery)
parse_table other_table = panic

unfoldable pub parse_from : List TableExpr → Outcome (Parsed String)
parse_from [] = panic
parse_from (t ∷ u ∷ ts) = ok (rejected err_join)
parse_from (aliased_table_expr alias t ∷ []) =
    if alias == "" then parse_table t else ok (rejected err_db_qualifier)
parse_from (paren_table_expr ∷ []) = ok (rejected err_subquery)
parse_from (join_table_expr ∷ []) = ok (rejected err_join)
parse_from (other_table_expr ∷ []) = panic

abbrev pub star_field : String → Bool → String → Field
star_field tname use_alias name = record {
  table = tname;
  name = name;
  alias_name = if use_alias then name else "";
}

-- The columns of a star.
abbrev pub star_fields : Table → String → String → Parsed (List Field)
star_fields t db name =
    if not (db == "")
    then rejected err_db_qualifier
    else if name == ""
    then accepted (map (star_field t.name true) t.fields)
    else elim (find_table_by_name name) [
      | none ↦ rejected (not_found_table name)
      | some u ↦ accepted (map (star_field name false) u.fields)
    ]

abbrev pub column : Table → Expr → Parsed (List Field)
column t (col_name qualifier name) = accepted (
    record {
      table = if qualifier == "" then t.name else qualifier;
      name = name;
      alias_name = if qualifier == "" then name else "";
    }
    ∷ [])
column t e = rejected err_column_list

abbrev pub select_fields : Table → SelectExpr → Parsed (List Field)
select_fields t (star_expr db name) = star_fields t db name
select_fields t (aliased_expr alias e) =
    if alias == "" then column t e else rejected err_column_alias
select_fields t other_select_expr = accepted []

-- The loop over the columns, with the fields of those before.
unfoldable pub columns : Table → SelectExprs → List Field → Parsed (List Field)
unfolding find_table_by_name
columns t no_exprs fields = accepted fields
columns t (exprs e es) fields = and_then (select_fields t e) λ fs. columns t es (fields ++ fs)

abbrev pub joined_has_field : Option Table → String → Bool
joined_has_field none name = false
joined_has_field (some u) name = has_field u name

-- Whether a column is one of the table, or of the one that may be joined.
unfoldable pub found : Table → Field → Bool
found t f =
    if f.table == t.name
    then has_field t f.name
    else if f.table == t.implict_join
    then joined_has_field (find_table_by_name f.table) f.name
    else false

unfoldable pub check_fields : Table → List Field → Parsed (List Field)
unfolding found
check_fields t [] = accepted []
check_fields t (f ∷ fs) =
    let rest = check_fields t fs in
    if found t f
    then (and_then rest λ gs. accepted (f ∷ gs))
    else rejected (not_found_column (field_string f))

unfoldable pub parse_cols : Table → SelectExprs → Parsed (List Field)
unfolding columns check_fields
parse_cols t cols = and_then (columns t cols []) (check_fields t)

-- What Parse leaves in the fields of the parser.
pub record Statement : Type 0 where
  pub table : Table
  pub fields : List Field
  pub where_clause : Option SqlAny
  pub offset : ℤ
  pub rows : ℤ

module _ (lib : Names) where
  -- The addresses of the CompOps are counted from 0.
  unfoldable pub parse_where : Table → Where → Outcome SqlAny
  unfolding parse_where_expr
  parse_where t w = if w.is_where then (parse_where_expr lib t w.expr 0 >>= λ r. ok r.0) else panic

  -- A count of LIMIT.
  abbrev pub limit_count : Expr → Outcome ℤ
  limit_count (sql_val int_val s) = or_panic (lib.parse_int s)
  limit_count e = panic

  abbrev pub limit_offset : Option Expr → Outcome ℤ
  limit_offset none = ok (pos 0)
  limit_offset (some e) = limit_count e

  abbrev pub limit_rows : Option Expr → Outcome ℤ
  limit_rows none = panic
  limit_rows (some e) = limit_count e

  unfoldable pub parse_limit : Limit → Outcome (ℤ × ℤ)
  parse_limit l = limit_offset l.offset >>= λ o. limit_rows l.rowcount >>= λ r. ok (o, r)

  -- The parts of Parse behind the columns.
  abbrev pub opt_where : Table → Option Where → Parsed (Option SqlAny)
  opt_where t none = accepted none
  opt_where t (some w) = and_then (panic_handler (parse_where t w)) λ e. accepted (some e)

  abbrev pub opt_limit : Option Limit → Parsed (ℤ × ℤ)
  opt_limit none = accepted (pos 0, pos 0)
  opt_limit (some l) = panic_handler (parse_limit l)

  abbrev pub unless_set : {A : Type 0} → Bool → ParseError → Parsed A → Parsed A
  unless_set b e rest = if b then rejected e else rest

  abbrev pub parse_table_of : Select → Table → Parsed Statement
  parse_table_of sel t = and_then (parse_cols t sel.select_exprs) λ fields.
      and_then (opt_where t sel.where_clause) λ w. unless_set sel.has_group_by err_group_by (
        unless_set sel.has_having err_having (
          unless_set sel.has_order_by err_order_by (
            and_then (opt_limit sel.limit) λ l.
              accepted (record {
                table = t;
                fields = fields;
                where_clause = w;
                offset = l.0;
                rows = l.1;
              }))))

  abbrev pub with_table : Select → Option Table → Parsed Statement
  with_table sel none = rejected err_not_found_table
  with_table sel (some t) = parse_table_of sel t

  -- Parse
  unfoldable pub parse : Select → Outcome (Parsed Statement)
  unfolding parse_from parse_cols parse_where parse_limit find_table_by_name
  parse sel =
      if sel.distinct == ""
      then (parse_from sel.from >>= λ tname.
          ok (and_then tname λ name. with_table sel (find_table_by_name name)))
      else ok (rejected err_distinct)

  -- ParseSelect on what sqlparser.Parse gives: an error, a SELECT, or another statement.
  unfoldable pub parse_select : Parsed (Option Select) → Outcome (Parsed Statement)
  unfolding parse
  parse_select (rejected e) = ok (rejected e)
  parse_select (accepted none) = ok (rejected err_unsupported_stmt)
  parse_select (accepted (some sel)) = parse sel

-- ColNames
abbrev pub col_names : Statement → List String
col_names st = map field_string st.fields
