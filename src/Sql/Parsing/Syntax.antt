-- ===== src/Sql/Parsing/Syntax.antt =====
-- The syntax trees of sqlparser, as far as tracer/sql/parse.go tells their types apart; the types that
-- it does not name are `other`. A name of sqlparser is its String(), and is empty where that is.
use Prim.Native.String.{String}
use goapptrace.Base.{ℕ, Bool, List, Option}
use goapptrace.Sql.Expressions.{Operator}

-- SQLVal.Type
pub data ValType : Type 0 where
  str_val : ValType
  int_val : ValType
  other_val : ValType

-- RangeCond.Operator
pub data RangeOperator : Type 0 where
  between : RangeOperator
  not_between : RangeOperator
  other_range : RangeOperator

mutual
  -- Expr
  pub data Expr : Type 0 where
    and_expr : Expr → Expr → Expr
    or_expr : Expr → Expr → Expr
    not_expr : Expr → Expr
    paren_expr : Expr → Expr
    comparison_expr : Operator → Expr → Expr → Expr
    range_cond : RangeOperator → (left from to : Expr) → Expr
    sql_val : ValType → List ℕ → Expr
    col_name : (qualifier name : String) → Expr
    interval_expr : Expr
    func_expr : (qualifier : String) (distinct : Bool) (name : String) → SelectExprs → Expr
    other_expr : Expr

  pub data SelectExprs : Type 0 where
    no_exprs : SelectExprs
    exprs : SelectExpr → SelectExprs → SelectExprs

  pub data SelectExpr : Type 0 where
    star_expr : (db_qualifier table_name : String) → SelectExpr
    aliased_expr : (alias : String) → Expr → SelectExpr
    other_select_expr : SelectExpr

-- AliasedTableExpr.Expr
pub data SimpleTableExpr : Type 0 where
  table_name : (qualifier name : String) → SimpleTableExpr
  subquery : SimpleTableExpr
  other_table : SimpleTableExpr

pub data TableExpr : Type 0 where
  aliased_table_expr : (alias : String) → SimpleTableExpr → TableExpr
  paren_table_expr : TableExpr
  join_table_expr : TableExpr
  other_table_expr : TableExpr

-- Whether the type of a Where is WhereStr, and its expression
pub record Where : Type 0 where
  pub is_where : Bool
  pub expr : Expr

-- A missing expression is nil.
pub record Limit : Type 0 where
  pub offset : Option Expr
  pub rowcount : Option Expr

-- Select; of GROUP BY, HAVING and ORDER BY only whether they are there.
pub record Select : Type 0 where
  pub distinct : String
  pub select_exprs : SelectExprs
  pub from : List TableExpr
  pub where_clause : Option Where
  pub has_group_by : Bool
  pub has_having : Bool
  pub has_order_by : Bool
  pub limit : Option Limit
