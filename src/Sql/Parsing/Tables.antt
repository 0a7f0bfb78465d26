-- ===== src/Sql/Parsing/Tables.antt =====
-- The tables of tracer/sql/parse.go, and the errors of the parser.
use Prim.Native.String.{String}
use text.Mathlib.Text.{◌==◌}
use goapptrace.Base.{
  ◌≡◌, refl, subst, Bool, true, false, List, [], ◌∷◌, Option, none, some, if◌then◌else◌, Bool-cases,
  inl, inr, All,
}

pub record Table : Type 0 where
  pub name : String
  pub fields : List String
  pub implict_join : String

-- name == t.Fields[i]
unfoldable pub is_one_of : String → List String → Bool
is_one_of name [] = false
is_one_of name (f ∷ fs) = if name == f then true else is_one_of name fs

abbrev pub has_field : Table → String → Bool
has_field t name = is_one_of name t.fields

abbrev pub calls : Table
calls = record {
  name = "calls";
  fields = "id" ∷ "gid" ∷ "starttime" ∷ "endtime" ∷ "exectime" ∷ [];
  implict_join = "";
}

abbrev pub frames : Table
frames = record {
  name = "frames";
  fields = "id" ∷ "offset" ∷ "package" ∷ "func" ∷ "file" ∷ "line" ∷ "pc" ∷ [];
  implict_join = "calls";
}

abbrev pub goroutines : Table
goroutines = record {
  name = "goroutines";
  fields = "gid" ∷ "starttime" ∷ "endtime" ∷ "exectime" ∷ [];
  implict_join = "";
}

abbrev pub funcs : Table
funcs = record {
  name = "funcs";
  fields = "name" ∷ "shortname" ∷ "package" ∷ "path" ∷ [];
  implict_join = "";
}

abbrev pub modules : Table
modules = record { name = "modules"; fields = "module" ∷ []; implict_join = "" }

abbrev pub tables : List Table
tables = calls ∷ frames ∷ goroutines ∷ funcs ∷ modules ∷ []

unfoldable pub find_table : String → List Table → Option Table
find_table name [] = none
find_table name (t ∷ ts) = if name == t.name then some t else find_table name ts

unfoldable pub find_table_by_name : String → Option Table
unfolding find_table
find_table_by_name name = find_table name tables

-- The errors that are returned; `err_syntax` is one of sqlparser, `recovered` is one that PanicHandler
-- makes of a panic.
pub data ParseError : Type 0 where
  err_distinct : ParseError
  err_not_found_table : ParseError
  err_join : ParseError
  err_db_qualifier : ParseError
  err_subquery : ParseError
  err_column_alias : ParseError
  err_column_list : ParseError
  err_group_by : ParseError
  err_having : ParseError
  err_order_by : ParseError
  err_unsupported_stmt : ParseError
  not_found_table : String → ParseError
  not_found_column : String → ParseError
  err_syntax : ParseError
  recovered : ParseError

-- A value, or an error.
pub data Parsed {ℓ} (A : Type ℓ) : Type ℓ where
  accepted : A → Parsed A
  rejected : ParseError → Parsed A

abbrev pub and_then {ℓ κ} : {A : Type ℓ} {B : Type κ} → Parsed A → (A → Parsed B) → Parsed B
and_then (accepted a) k = k a
and_then (rejected e) k = rejected e

some-injective {ℓ} : {A : Type ℓ} {a b : A} → some a ≡ some b → a ≡ b
some-injective h = cc

-- What follows from the parts of an accepted result.
pub and_then_elim {ℓ κ μ} :
    {A : Type ℓ} {B : Type κ} {C : Type μ} (p : Parsed A) (k : A → Parsed B) {b : B}
    → and_then p k ≡ accepted b
    → ((a : A) → p ≡ accepted a → k a ≡ accepted b → C)
    → C
and_then_elim (accepted a) k h f = f a refl h
and_then_elim (rejected e) k h f = cc

pub accepted-injective {ℓ} : {A : Type ℓ} {a b : A} → accepted a ≡ accepted b → a ≡ b
accepted-injective h = cc

-- What holds of every table holds of the one that is found.
pub find_table-All :
    (P : Table → Type 0) (name : String) (ts : List Table) {t : Table}
    → All P ts
    → find_table name ts ≡ some t
    → P t
unfolding find_table
find_table-All P name [] all h = cc
find_table-All P name (u ∷ ts) (here, rest) h = elim (Bool-cases (name == u.name)) [
  | inl e ↦ subst P (some-injective (rw e at h)) here
  | inr e ↦ find_table-All P name ts rest (rw e at h)
]
