-- ===== src/Sql/Parsing/Printing.antt =====
-- The expressions of a WHERE clause as syntax trees, which parseWhereExpr reads back.
use Prim.Native.String.{String}
use text.Mathlib.Text.{◌==◌}
use text.Mathlib.TextEquality.{eq_iff}
use goapptrace.Base.{
  ℕ, ◌+◌, ◌≡◌, ◌≢◌, refl, sym, ap, arith, true, false, List, [], ◌∷◌, map, Option, none, some, ok,
  if◌then◌else◌, All,
}
use goapptrace.Base.Int.{ℤ, IsInt64}
use goapptrace.Sql.{sql_big_int, sql_string}
use goapptrace.Sql.Expressions.{
  SqlAny, literal, sql_field, and_op, or_op, not_op, comp_op, range_op, func_frame, func_call,
  func_now, func_add_time, func_sub_time,
}
use goapptrace.Sql.Parsing.Syntax.{
  str_val, int_val, between, Expr, SelectExprs, and_expr, or_expr, not_expr, comparison_expr,
  range_cond, sql_val, col_name, func_expr, no_exprs, exprs, aliased_expr,
}
use goapptrace.Sql.Parsing.Tables.{Table, frames, calls, is_one_of}
use goapptrace.Sql.Parsing.Conditions.{
  Names, SqlFunc, sql_funcs, find_func, parse_frame, parse_call, parse_now, parse_add_time,
  parse_sub_time, parse_where_expr,
}

abbrev pub func_names : List String
func_names = map (λ f. f.name) sql_funcs

-- What the documentation of the libraries says: ParseInt reads a decimal text of an int64, and
-- EqualString tells the names of the functions apart.
pub record IsNames (lib : Names) (format_int : ℤ → List ℕ) : Type 0 where
  pub parse-format : (n : ℤ) → IsInt64 n → lib.parse_int (format_int n) ≡ some n
  pub equal_names :
      (a b : String)
      → is_one_of a func_names ≡ true
      → is_one_of b func_names ≡ true
      → lib.equal_string a b ≡ (a == b)

-- One argument of a function.
abbrev arg : Expr → SelectExprs → SelectExprs
arg e es = exprs (aliased_expr "" e) es

abbrev call_of : String → SelectExprs → Expr
call_of name args = func_expr "" false name args

-- Every column is qualified. The arguments of ADDTIME and SUBTIME are lost.
pub to_expr : (ℤ → List ℕ) → SqlAny → Expr
to_expr fmt (literal (sql_big_int n)) = sql_val int_val (fmt n)
to_expr fmt (literal (sql_string s)) = sql_val str_val s
to_expr fmt (literal v) = sql_val str_val []
to_expr fmt (sql_field f g) = col_name f.table f.name
to_expr fmt (and_op a b) = and_expr (to_expr fmt a) (to_expr fmt b)
to_expr fmt (or_op a b) = or_expr (to_expr fmt a) (to_expr fmt b)
to_expr fmt (not_op a) = not_expr (to_expr fmt a)
to_expr fmt (comp_op i op a b) = comparison_expr op (to_expr fmt a) (to_expr fmt b)
to_expr fmt (range_op a b c) = range_cond between (to_expr fmt a) (to_expr fmt b) (to_expr fmt c)
to_expr fmt (func_frame h a) = call_of "FRAME" (arg (to_expr fmt a) no_exprs)
to_expr fmt (func_call h a) = call_of "CALL" (arg (to_expr fmt a) no_exprs)
to_expr fmt func_now = call_of "NOW" no_exprs
to_expr fmt func_add_time =
    call_of "ADDTIME" (arg (sql_val str_val []) (arg (sql_val str_val []) no_exprs))
to_expr fmt func_sub_time =
    call_of "SUBTIME" (arg (sql_val str_val []) (arg (sql_val str_val []) no_exprs))

-- An expression that no row has been set in, with a literal of each kind that SQL writes, and whose
-- comparisons have the addresses from `n` to `m`, that of an operand before that of its operator.
abbrev pub IsFresh : ℕ → SqlAny → ℕ → Type 0
IsFresh n (literal (sql_big_int k)) m = IsInt64 k × (m ≡ n)
IsFresh n (literal (sql_string s)) m = m ≡ n
IsFresh n (literal v) m = ⊥
IsFresh n (sql_field f none) m = (f.table ≢ "") × (f.alias_name ≡ "") × (m ≡ n)
IsFresh n (sql_field f (some g)) m = ⊥
IsFresh n (and_op a b) m = (i : ℕ) × IsFresh n a i × IsFresh i b m
IsFresh n (or_op a b) m = (i : ℕ) × IsFresh n a i × IsFresh i b m
IsFresh n (not_op a) m = IsFresh n a m
IsFresh n (comp_op address op a b) m =
    (i : ℕ) × IsFresh n a i × IsFresh i b address × (m ≡ address + 1)
IsFresh n (range_op a b c) m = (i : ℕ) × (j : ℕ) × IsFresh n a i × IsFresh i b j × IsFresh j c m
IsFresh n (func_frame has_row a) m = (has_row ≡ false) × IsFresh n a m
IsFresh n (func_call has_row a) m = (has_row ≡ false) × IsFresh n a m
IsFresh n e m = m ≡ n

module _ (lib : Names) (fmt : ℤ → List ℕ) (laws : IsNames lib fmt) where
  -- find_func by the equality of names.
  abbrev find_exact : String → List SqlFunc → Option SqlFunc → Option SqlFunc
  find_exact name [] found = found
  find_exact name (f ∷ fs) found = find_exact name fs (if name == f.name then some f else found)

  find_func-find_exact :
      (name : String) (fs : List SqlFunc) (found : Option SqlFunc)
      → is_one_of name func_names ≡ true
      → All (λ f. is_one_of f.name func_names ≡ true) fs
      → find_func lib name fs found ≡ find_exact name fs found
  unfolding find_func
  find_func-find_exact name [] found h all = refl
  find_func-find_exact name (f ∷ fs) found h (here, rest) =
      rw (laws.equal_names name f.name h here) (find_func-find_exact name fs _ h rest)

  find_named :
      (name : String)
      → is_one_of name func_names ≡ true
      → find_func lib name sql_funcs none ≡ find_exact name sql_funcs none
  unfolding is_one_of
  find_named name h =
      find_func-find_exact name sql_funcs none h (refl, (refl, (refl, (refl, (refl, tt)))))

  pub parse_where_expr-to_expr :
      (e : SqlAny) (t : Table) (n m : ℕ)
      → IsFresh n e m
      → parse_where_expr lib t (to_expr fmt e) n ≡ ok (e, m)
  unfolding parse_where_expr to_expr is_one_of parse_frame parse_call parse_now parse_add_time
      parse_sub_time
  parse_where_expr-to_expr (literal (sql_big_int k)) t n m (range, e) =
      rw (laws.parse-format k range, e) refl
  parse_where_expr-to_expr (literal (sql_string s)) t n m e = rw e refl
  parse_where_expr-to_expr (literal v) t n m h = absurd h
  parse_where_expr-to_expr (sql_field f none) t n m (named, bare, e) =
      let bound : (f.table == "") ≡ false = ground (arith, eq_iff f.table "") in
      rw (bound, e) (ap (λ x. ok (sql_field (record f { alias_name = x }) none, n)) (sym bare))
  parse_where_expr-to_expr (sql_field f (some g)) t n m h = absurd h
  parse_where_expr-to_expr (and_op a b) t n m (i, ha, hb) =
      rw (parse_where_expr-to_expr a t n i ha, parse_where_expr-to_expr b t i m hb) refl
  parse_where_expr-to_expr (or_op a b) t n m (i, ha, hb) =
      rw (parse_where_expr-to_expr a t n i ha, parse_where_expr-to_expr b t i m hb) refl
  parse_where_expr-to_expr (not_op a) t n m h = rw (parse_where_expr-to_expr a t n m h) refl
  parse_where_expr-to_expr (comp_op address op a b) t n m (i, ha, hb, e) =
      rw (parse_where_expr-to_expr a t n i ha, parse_where_expr-to_expr b t i address hb, e) refl
  parse_where_expr-to_expr (range_op a b c) t n m (i, j, ha, hb, hc) =
      rw
        (
          parse_where_expr-to_expr a t n i ha,
          parse_where_expr-to_expr b t i j hb,
          parse_where_expr-to_expr c t j m hc,
        )
        refl
  parse_where_expr-to_expr (func_frame has_row a) t n m (e, h) =
      rw (find_named "FRAME" refl, parse_where_expr-to_expr a frames n m h, e) refl
  parse_where_expr-to_expr (func_call has_row a) t n m (e, h) =
      rw (find_named "CALL" refl, parse_where_expr-to_expr a calls n m h, e) refl
  parse_where_expr-to_expr func_now t n m e = rw (find_named "NOW" refl, e) refl
  parse_where_expr-to_expr func_add_time t n m e = rw (find_named "ADDTIME" refl, e) refl
  parse_where_expr-to_expr func_sub_time t n m e = rw (find_named "SUBTIME" refl, e) refl
