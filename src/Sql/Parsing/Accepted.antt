-- ===== src/Sql/Parsing/Accepted.antt =====
-- What Parse accepts: its columns are fields of the rows that it is about.
use text.Mathlib.Text.{◌==◌}
use goapptrace.Base.{
  ℕ, ◌≡◌, inl, inr, refl, subst, Bool, true, false, List, [], ◌∷◌, Option, none, some, ok,
  >>=-eq-ok, ok-injective, Bool-cases, if◌then◌else◌, All, All-map,
}
use goapptrace.Sql.Rows.{Row}
use goapptrace.Sql.Fields.{Field}
use goapptrace.Sql.Typing.{IsRow}
use goapptrace.Sql.Parsing.Tables.{
  ParseError, err_group_by, err_having, err_order_by, Table, tables, find_table_by_name, Parsed,
  accepted, rejected, and_then_elim, accepted-injective, find_table-All,
}
use goapptrace.Sql.Parsing.Syntax.{Select, SelectExprs}
use goapptrace.Sql.Parsing.Conditions.{Names}
use goapptrace.Sql.Parsing.Statements.{
  found, columns, check_fields, parse_cols, Statement, with_table, opt_where, opt_limit, parse_from,
  parse,
}
use goapptrace.Sql.Parsing.Columns.{kind_of, is_framed, IsReadable, Serves, tables-Serves}

check_fields-found :
    (t : Table) (fs : List Field) {gs : List Field}
    → check_fields t fs ≡ accepted gs
    → All (λ f. found t f ≡ true) gs
unfolding check_fields
check_fields-found t [] h = rw (← accepted-injective h) tt
check_fields-found t (f ∷ fs) h = elim (Bool-cases (found t f)) [
  | inl known ↦
      and_then_elim (check_fields t fs) _ (rw known at h)
        λ gs e same. rw (← accepted-injective same) (known, check_fields-found t fs e)
  | inr unknown ↦ (let no : rejected _ ≡ accepted _ = rw unknown at h in cc)
]

parse_cols-found :
    (t : Table) (cols : SelectExprs) {gs : List Field}
    → parse_cols t cols ≡ accepted gs
    → All (λ f. found t f ≡ true) gs
unfolding parse_cols
parse_cols-found t cols h =
    and_then_elim (columns t cols []) (check_fields t) h λ fs e h1. check_fields-found t fs h1

unless_set-accepted :
    {A : Type 0} {a : A} (b : Bool) (e : ParseError) (rest : Parsed A)
    → (if b then rejected e else rest) ≡ accepted a
    → rest ≡ accepted a
unless_set-accepted true e rest h = cc
unless_set-accepted false e rest h = h

with_table-found :
    (lib : Names) (sel : Select) (o : Option Table) {st : Statement}
    → with_table lib sel o ≡ accepted st
    → (o ≡ some st.table) × All (λ f. found st.table f ≡ true) st.fields
with_table-found lib sel none h = cc
with_table-found lib sel (some t) h =
    and_then_elim (parse_cols t sel.select_exprs) _ h λ fields cols h1.
      and_then_elim (opt_where lib t sel.where_clause) _ h1 λ w e2 h2.
        and_then_elim (opt_limit lib sel.limit) _
          (unless_set-accepted sel.has_order_by err_order_by _ (
            unless_set-accepted sel.has_having err_having _
              (unless_set-accepted sel.has_group_by err_group_by _ h2)))
          λ l e4 h4.
            subst (λ s. (some t ≡ some s.table) × All (λ f. found s.table f ≡ true) s.fields)
              (accepted-injective h4) (refl, parse_cols-found t sel.select_exprs cols)

columns-IsReadable :
    (format_uint : ℕ → List ℕ) (t : Table) (r : Row)
    → Serves format_uint t
    → IsRow (kind_of t) (is_framed t) r
    → (fs : List Field) → All (λ f. found t f ≡ true) fs
    → All (IsReadable format_uint r) fs
columns-IsReadable format_uint t r serves row fs =
    All-map (λ f. found t f ≡ true) (IsReadable format_uint r) (λ f known. serves f known r row) fs

-- For a SELECT that Parse accepts, and a row of the kind that a search of its table reads, with a symbol
-- table that Load accepts and, if the table is frames, an offset at a frame: each column has a
-- getter in the row, which does not panic and returns a value of its type.
pub parse-IsReadable :
    (lib : Names) (format_uint : ℕ → List ℕ) (sel : Select) (st : Statement) (r : Row)
    → parse lib sel ≡ ok (accepted st)
    → IsRow (kind_of st.table) (is_framed st.table) r
    → All (IsReadable format_uint r) st.fields
unfolding parse find_table_by_name
parse-IsReadable lib format_uint sel st r h row = elim (Bool-cases (sel.distinct == "")) [
  | inr e ↦ (let no : ok (rejected _) ≡ ok (accepted st) = rw e at h in cc)
  | inl e ↦
      let (tname, e1, h1) = >>=-eq-ok (parse_from sel.from) _ (rw e at h) in
      and_then_elim tname _ (ok-injective h1) λ name e2 h2.
        let (known, columns) = with_table-found lib sel (find_table_by_name name) h2 in
        let serves : Serves format_uint st.table =
          find_table-All (Serves format_uint) name tables (tables-Serves format_uint) known in
        columns-IsReadable format_uint st.table r serves row st.fields columns
]
