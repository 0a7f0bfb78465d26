-- ===== src/Sql/Comparisons.antt =====
-- The comparisons of a well-typed expression can be made, and fit their types.
use goapptrace.Base.{ℕ, ◌≡◌, inl, inr, refl, Bool, true, false, List, Outcome, ok, ◌>>=◌}
use goapptrace.Base.Int.{ℤ}
use goapptrace.Sql.{
  SqlType, bool_type, big_int_type, string_type, datetime_type, sql_bool, sql_big_int, sql_string,
  sql_datetime, value_string, same_type,
}
use goapptrace.Sql.Rows.{Row}
use goapptrace.Sql.Expressions.{
  Operator, equal, less_than, greater_than, less_equal, greater_equal, not_equal, null_safe_equal,
  like, not_like, regexp, not_regexp, SqlAny, literal, sql_field, func_now, func_add_time,
  func_sub_time,
}
use goapptrace.Sql.Evaluation.{
  Libraries, Comparison, of_type, glob_like, matches, compare_bools, compare_big_ints,
  compare_strings, type_of, string, comparison, compare_fn, compiled, sql_pattern2glob,
}
use goapptrace.Sql.Typing.{
  Kind, IsRow, IsOperand, IsRegexp, IsComparison, Typing, Fits, compares, is_like, is_regexp,
  has_bool_type,
}
use goapptrace.Sql.Readings.{type_of_operand, string_returns}

pub compare_bools_returns :
    (op : Operator) (a b : Bool)
    → compares bool_type op ≡ true
    → (v : Bool) × (compare_bools op a b ≡ ok v)
unfolding compare_bools
compare_bools_returns equal a b h = (_, refl)
compare_bools_returns not_equal a b h = (_, refl)
compare_bools_returns null_safe_equal a b h = (_, refl)
compare_bools_returns op a b h = cc

pub compare_big_ints_returns :
    (op : Operator) (a b : ℤ)
    → compares big_int_type op ≡ true
    → (v : Bool) × (compare_big_ints op a b ≡ ok v)
unfolding compare_big_ints
compare_big_ints_returns equal a b h = (_, refl)
compare_big_ints_returns less_than a b h = (_, refl)
compare_big_ints_returns greater_than a b h = (_, refl)
compare_big_ints_returns less_equal a b h = (_, refl)
compare_big_ints_returns greater_equal a b h = (_, refl)
compare_big_ints_returns not_equal a b h = (_, refl)
compare_big_ints_returns null_safe_equal a b h = (_, refl)
compare_big_ints_returns op a b h = cc

pub compare_strings_returns :
    (op : Operator) (a b : List ℕ)
    → compares string_type op ≡ true
    → (v : Bool) × (compare_strings op a b ≡ ok v)
unfolding compare_strings
compare_strings_returns equal a b h = (_, refl)
compare_strings_returns not_equal a b h = (_, refl)
compare_strings_returns null_safe_equal a b h = (_, refl)
compare_strings_returns op a b h = cc

same_type_refl : (t : SqlType) → same_type t t ≡ true
unfolding same_type
same_type_refl bool_type = refl
same_type_refl big_int_type = refl
same_type_refl string_type = refl
same_type_refl datetime_type = refl

module _ (lib : Libraries) (k : Kind) (typing : Typing) (framed : Bool) (r : Row)
    (row : IsRow k framed r) where
  abbrev MadeFor : SqlType → Operator → Outcome Comparison → Type 0
  MadeFor t op o = (c : Comparison) × (o ≡ ok c) × Fits lib k typing t op c

  bools-MadeFor :
      (op : Operator) (b : SqlAny)
      → compares bool_type op ≡ true
      → MadeFor bool_type op (comparison lib bool_type op r b)
  unfolding comparison
  bools-MadeFor equal b h = (of_type bool_type equal, refl, (refl, refl, refl))
  bools-MadeFor not_equal b h = (of_type bool_type not_equal, refl, (refl, refl, refl))
  bools-MadeFor null_safe_equal b h = (of_type bool_type null_safe_equal, refl, (refl, refl, refl))
  bools-MadeFor op b h = cc

  big_ints-MadeFor :
      (op : Operator) (b : SqlAny)
      → compares big_int_type op ≡ true
      → MadeFor big_int_type op (comparison lib big_int_type op r b)
  unfolding comparison
  big_ints-MadeFor equal b h = (of_type big_int_type equal, refl, (refl, refl, refl))
  big_ints-MadeFor less_than b h = (of_type big_int_type less_than, refl, (refl, refl, refl))
  big_ints-MadeFor greater_than b h = (of_type big_int_type greater_than, refl, (refl, refl, refl))
  big_ints-MadeFor less_equal b h = (of_type big_int_type less_equal, refl, (refl, refl, refl))
  big_ints-MadeFor greater_equal b h =
      (of_type big_int_type greater_equal, refl, (refl, refl, refl))
  big_ints-MadeFor not_equal b h = (of_type big_int_type not_equal, refl, (refl, refl, refl))
  big_ints-MadeFor null_safe_equal b h =
      (of_type big_int_type null_safe_equal, refl, (refl, refl, refl))
  big_ints-MadeFor op b h = cc

  strings-MadeFor :
      (op : Operator) (b : SqlAny)
      → compares string_type op ≡ true
      → MadeFor string_type op (comparison lib string_type op r b)
  unfolding comparison
  strings-MadeFor equal b h = (of_type string_type equal, refl, (refl, refl, refl))
  strings-MadeFor not_equal b h = (of_type string_type not_equal, refl, (refl, refl, refl))
  strings-MadeFor null_safe_equal b h =
      (of_type string_type null_safe_equal, refl, (refl, refl, refl))
  strings-MadeFor op b h = cc

  like-MadeFor :
      (op : Operator) (b : SqlAny)
      → is_like op ≡ true
      → IsOperand k framed string_type b
      → MadeFor string_type op (comparison lib string_type op r b)
  unfolding comparison
  like-MadeFor like b h o =
      let (p, e) = string_returns lib k framed r row b o in
      (glob_like true (sql_pattern2glob p), rw e refl, refl)
  like-MadeFor not_like b h o =
      let (p, e) = string_returns lib k framed r row b o in
      (glob_like false (sql_pattern2glob p), rw e refl, refl)
  like-MadeFor op b h o = cc

  compiled-MadeFor :
      (is_match : Bool) (op : Operator) (b : SqlAny)
      → IsRegexp lib b
      → MadeFor string_type op (string lib r b >>= compiled lib is_match)
  unfolding string value_string
  compiled-MadeFor is_match op (literal (sql_string p)) (m, e) =
      (matches is_match m, rw (e, compiled) refl, refl)
  compiled-MadeFor is_match op b h = absurd h

  regexp-MadeFor :
      (op : Operator) (b : SqlAny)
      → is_regexp op ≡ true
      → IsRegexp lib b
      → MadeFor string_type op (comparison lib string_type op r b)
  unfolding comparison
  regexp-MadeFor regexp b h o = compiled-MadeFor true regexp b o
  regexp-MadeFor not_regexp b h o = compiled-MadeFor false not_regexp b o
  regexp-MadeFor op b h o = cc

  type_of-bool : (e : SqlAny) → has_bool_type e ≡ true → type_of lib r e ≡ ok bool_type
  unfolding type_of
  type_of-bool (literal (sql_bool b)) h = refl
  type_of-bool (literal (sql_big_int b)) h = cc
  type_of-bool (literal (sql_string b)) h = cc
  type_of-bool (literal (sql_datetime b)) h = cc
  type_of-bool (sql_field f g) h = cc
  type_of-bool func_now h = cc
  type_of-bool func_add_time h = cc
  type_of-bool func_sub_time h = cc
  type_of-bool e h = refl

  typed-MadeFor :
      (t : SqlType) (op : Operator) (a b : SqlAny)
      → type_of lib r a ≡ ok t
      → type_of lib r b ≡ ok t
      → MadeFor t op (comparison lib t op r b)
      → MadeFor t op (compare_fn lib op r a b)
  unfolding compare_fn
  typed-MadeFor t op a b ta tb (c, made, fits) = (c, rw (ta, tb, same_type_refl t) made, fits)

  -- compareFn of a well-typed comparison returns one that fits.
  pub compare_fn-Fits :
      (t : SqlType) (op : Operator) (A B : Type 0) (a b : SqlAny)
      → IsComparison lib k typing framed t op A B a b
      → MadeFor t op (compare_fn lib op r a b)
  compare_fn-Fits bool_type op A B a b (h, _, _, ta, tb) =
      typed-MadeFor bool_type op a b (type_of-bool a ta) (type_of-bool b tb) (bools-MadeFor op b h)
  compare_fn-Fits big_int_type op A B a b (h, oa, ob) =
      typed-MadeFor big_int_type op a b (type_of_operand lib k framed r row big_int_type a oa)
        (type_of_operand lib k framed r row big_int_type b ob) (big_ints-MadeFor op b h)
  compare_fn-Fits string_type op A B a b (h, oa, ob) =
      typed-MadeFor string_type op a b (type_of_operand lib k framed r row string_type a oa)
        (type_of_operand lib k framed r row string_type b ob)
        (elim h [
          | inl c ↦ strings-MadeFor op b c
          | inr (inl c) ↦ like-MadeFor op b c ob
          | inr (inr c) ↦ regexp-MadeFor op b c.0 c.1
        ])
  compare_fn-Fits datetime_type op A B a b h = absurd h
