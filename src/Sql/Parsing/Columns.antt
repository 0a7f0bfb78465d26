-- ===== src/Sql/Parsing/Columns.antt =====
-- The fields of the tables are fields of the rows.
use Prim.Native.String.{String}
use text.Mathlib.Text.{◌==◌}
use text.Mathlib.TextEquality.{eq_iff}
use goapptrace.Base.{
  ℕ, ◌≡◌, ◌⊎◌, inl, inr, refl, Bool, true, false, List, [], ◌∷◌, map, Option, none, some, Outcome,
  ok, Bool-cases, if◌then◌else◌, All,
}
use goapptrace.Sql.Rows.{
  Row, func_log_row, goroutine_row, go_func_row, go_module_row, Getter, read_field,
}
use goapptrace.Sql.Fields.{
  Field, switch, func_log_field, goroutine_field, go_func_field, go_module_field, field_of,
  calls_getters, frames_getters, goroutines_getters, funcs_getters, modules_getters,
}
use goapptrace.Sql.Typing.{
  Kind, of_func_logs, of_goroutines, of_go_funcs, of_go_modules, IsRow, getter_kind, getter_type,
  reads_frame,
}
use goapptrace.Sql.Readings.{Gives, field-Gives}
use goapptrace.Sql.Parsing.Tables.{
  Table, is_one_of, has_field, calls, frames, goroutines, funcs, modules, tables,
  find_table_by_name,
}
use goapptrace.Sql.Parsing.Statements.{found, joined_has_field}

-- A getter of the kind, which reads a frame only where the rows are frames.
abbrev IsGetter : Kind → Bool → Getter → Type 0
IsGetter k framed g = (getter_kind g ≡ k) × ((reads_frame g ≡ false) ⊎ (framed ≡ true))

switch-All :
    (P : Getter → Type 0) (name : String) (cases : List (String × Getter))
    → is_one_of name (map (λ c. c.0) cases) ≡ true
    → All (λ c. P c.1) cases
    → (g : Getter) × (switch name cases ≡ ok g) × P g
unfolding switch is_one_of
switch-All P name [] h all = cc
switch-All P name ((s, g) ∷ cases) h (here, rest) = elim (Bool-cases (name == s)) [
  | inl e ↦ rw e (g, refl, here)
  | inr e ↦ rw e (switch-All P name cases (rw e at h) rest)
]

abbrev Known : (Field → Outcome Getter) → Kind → Bool → Field → Type 0
Known field k framed f = (g : Getter) × (field f ≡ ok g) × IsGetter k framed g

-- A column of the table, as each kind of row makes its getter.
calls-Known :
    (f : Field) (framed : Bool)
    → f.table ≡ "calls"
    → has_field calls f.name ≡ true
    → Known func_log_field of_func_logs framed f
unfolding func_log_field
calls-Known f framed e h =
    let k : (of_func_logs ≡ of_func_logs) × ((false ≡ false) ⊎ (framed ≡ true)) =
      (refl, inl refl) in
    rw e
      (switch-All (IsGetter of_func_logs framed) f.name calls_getters h (k, (k, (k, (k, (k, tt))))))

frames-Known :
    (f : Field)
    → f.table ≡ "frames"
    → has_field frames f.name ≡ true
    → Known func_log_field of_func_logs true f
unfolding func_log_field
frames-Known f e h =
    let k : (b : Bool) → (of_func_logs ≡ of_func_logs) × ((b ≡ false) ⊎ (true ≡ true)) =
      λ b. (refl, inr refl) in
    rw e (
      switch-All (IsGetter of_func_logs true) f.name frames_getters h
        (k _, (k _, (k _, (k _, (k _, (k _, (k _, tt))))))))

goroutines-Known :
    (f : Field)
    → f.table ≡ "goroutines"
    → has_field goroutines f.name ≡ true
    → Known goroutine_field of_goroutines false f
unfolding goroutine_field
goroutines-Known f e h =
    let k : (of_goroutines ≡ of_goroutines) × ((false ≡ false) ⊎ (false ≡ true)) =
      (refl, inl refl) in
    rw e
      (switch-All (IsGetter of_goroutines false) f.name goroutines_getters h (k, (k, (k, (k, tt)))))

funcs-Known :
    (f : Field)
    → f.table ≡ "funcs"
    → has_field funcs f.name ≡ true
    → Known go_func_field of_go_funcs false f
unfolding go_func_field
funcs-Known f e h =
    let k : (of_go_funcs ≡ of_go_funcs) × ((false ≡ false) ⊎ (false ≡ true)) = (refl, inl refl) in
    rw e (switch-All (IsGetter of_go_funcs false) f.name funcs_getters h (k, (k, (k, (k, tt)))))

modules-Known :
    (f : Field)
    → f.table ≡ "modules"
    → has_field modules f.name ≡ true
    → Known go_module_field of_go_modules false f
unfolding go_module_field
modules-Known f e h =
    let k : (of_go_modules ≡ of_go_modules) × ((false ≡ false) ⊎ (false ≡ true)) =
      (refl, inl refl) in
    rw e (switch-All (IsGetter of_go_modules false) f.name modules_getters h (k, tt))

-- The kind of the rows that a search of the table reads.
abbrev pub kind_of : Table → Kind
kind_of t =
    if t.name == "calls"
    then of_func_logs
    else if t.name == "frames"
    then of_func_logs
    else if t.name == "goroutines"
    then of_goroutines
    else if t.name == "funcs"
    then of_go_funcs
    else of_go_modules

-- Whether the offset of its rows is that of a frame.
abbrev pub is_framed : Table → Bool
is_framed t = t.name == "frames"

-- The column has a getter, and that returns a value of its type.
abbrev pub IsReadable : (ℕ → List ℕ) → Row → Field → Type 0
IsReadable format_uint r f =
    (g : Getter) × (field_of r f ≡ ok g) × Gives (getter_type g) (read_field format_uint g r)

Known-IsReadable :
    (format_uint : ℕ → List ℕ) (k : Kind) (framed : Bool) (r : Row) (f : Field)
    → Known (field_of r) k framed f
    → IsRow k framed r
    → IsReadable format_uint r f
Known-IsReadable format_uint k framed r f (g, e, (same, range)) row =
    (g, e, field-Gives format_uint k framed (getter_type g) g r (same, range, refl) row)

joined-known :
    (o : Option Table) (name : String)
    → joined_has_field o name ≡ true
    → (u : Table) × (o ≡ some u) × (has_field u name ≡ true)
joined-known none name h = cc
joined-known (some u) name h = (u, refl, h)

-- A column that is found is a field of the table, or of the joined one.
found-cases :
    (t : Table) (f : Field)
    → found t f ≡ true
    → ((f.table ≡ t.name) × (has_field t f.name ≡ true))
      ⊎ ((f.table ≡ t.implict_join)
          × ((u : Table) × (find_table_by_name t.implict_join ≡ some u)
              × (has_field u f.name ≡ true)))
unfolding found
found-cases t f h = elim (Bool-cases (f.table == t.name)) [
  | inl e ↦ inl ((eq_iff f.table t.name).0 e, rw e at h)
  | inr e ↦ elim (Bool-cases (f.table == t.implict_join)) [
    | inl joined ↦
        let same : f.table ≡ t.implict_join = (eq_iff f.table t.implict_join).0 joined in
        inr (
          same,
          rw (← same) (joined-known (find_table_by_name f.table) f.name (rw (e, joined) at h)),
        )
    | inr other ↦ (let no : false ≡ true = rw (e, other) at h in cc)
  ]
]

-- The columns that are found in a table are read in each of its rows.
abbrev pub Serves : (ℕ → List ℕ) → Table → Type 0
Serves format_uint t =
    (f : Field)
    → found t f ≡ true
    → (r : Row) → IsRow (kind_of t) (is_framed t) r
    → IsReadable format_uint r f

no_table : {A : Type 0} {u : Table} → find_table_by_name "" ≡ some u → A
unfolding find_table_by_name
no_table h = cc

has_field-calls :
    {u : Table} (name : String)
    → find_table_by_name "calls" ≡ some u
    → has_field u name ≡ true
    → has_field calls name ≡ true
unfolding find_table_by_name
has_field-calls name e h = cc

-- A table that joins none.
found_alone :
    (t : Table) (f : Field)
    → t.implict_join ≡ ""
    → found t f ≡ true
    → (f.table ≡ t.name) × (has_field t f.name ≡ true)
found_alone t f alone h = elim (found-cases t f h) [
  | inl own ↦ own
  | inr (e, (u, known, has)) ↦ no_table (rw alone at known)
]

module _ (format_uint : ℕ → List ℕ) where
  calls-Serves : Serves format_uint calls
  unfolding field_of
  calls-Serves f h (func_log_row l s offset) row =
      let (e, has) = found_alone calls f refl h in
      Known-IsReadable format_uint of_func_logs false (func_log_row l s offset) f
        (calls-Known f false e has) row
  calls-Serves f h (goroutine_row g) row = cc
  calls-Serves f h (go_func_row g s) (row, v) = cc
  calls-Serves f h (go_module_row g) row = cc

  frames-Serves : Serves format_uint frames
  unfolding field_of
  frames-Serves f h (func_log_row l s offset) row =
      Known-IsReadable format_uint of_func_logs true (func_log_row l s offset) f
        (elim (found-cases frames f h) [
          | inl (e, has) ↦ frames-Known f e has
          | inr (e, (u, known, has)) ↦ calls-Known f true e (has_field-calls f.name known has)
        ])
        row
  frames-Serves f h (goroutine_row g) row = cc
  frames-Serves f h (go_func_row g s) (row, v) = cc
  frames-Serves f h (go_module_row g) row = cc

  goroutines-Serves : Serves format_uint goroutines
  unfolding field_of
  goroutines-Serves f h (func_log_row l s offset) (row, v, range) = cc
  goroutines-Serves f h (goroutine_row g) row =
      let (e, has) = found_alone goroutines f refl h in
      Known-IsReadable format_uint of_goroutines false (goroutine_row g) f
        (goroutines-Known f e has) row
  goroutines-Serves f h (go_func_row g s) (row, v) = cc
  goroutines-Serves f h (go_module_row g) row = cc

  funcs-Serves : Serves format_uint funcs
  unfolding field_of
  funcs-Serves f h (func_log_row l s offset) (row, v, range) = cc
  funcs-Serves f h (goroutine_row g) row = cc
  funcs-Serves f h (go_func_row g s) row =
      let (e, has) = found_alone funcs f refl h in
      Known-IsReadable format_uint of_go_funcs false (go_func_row g s) f (funcs-Known f e has) row
  funcs-Serves f h (go_module_row g) row = cc

  modules-Serves : Serves format_uint modules
  unfolding field_of
  modules-Serves f h (func_log_row l s offset) (row, v, range) = cc
  modules-Serves f h (goroutine_row g) row = cc
  modules-Serves f h (go_func_row g s) (row, v) = cc
  modules-Serves f h (go_module_row g) row =
      let (e, has) = found_alone modules f refl h in
      Known-IsReadable format_uint of_go_modules false (go_module_row g) f (modules-Known f e has)
        row

  pub tables-Serves : All (Serves format_uint) tables
  tables-Serves =
      (calls-Serves, (frames-Serves, (goroutines-Serves, (funcs-Serves, (modules-Serves, tt)))))
