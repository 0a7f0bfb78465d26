-- ===== src/Sql/Readings.antt =====
-- What the getters and the operands of a well-typed expression return.
use goapptrace.Base.{
  ℕ, ◌<◌, ◌≡◌, ◌⊎◌, inl, inr, refl, ap, ◌∙◌, Bool, true, false, List, Option, none, some, Outcome,
  ok, ◌>>=◌, length, get_elem?, or_panic,
}
use goapptrace.Base.Int.{ℤ}
use goapptrace.Types.{FuncLog, Goroutine, GoFunc, GoModule}
use goapptrace.Symbols.{Symbols}
use goapptrace.Symbols.Validity.{IsValidTable}
use goapptrace.Symbols.Split.{package_path}
use goapptrace.Symbols.Names.{
  get_elem?-some, go_func_cases, file-known, line_cases, file_line-known,
}
use goapptrace.Sql.{
  SqlType, big_int_type, string_type, SqlValue, sql_big_int, sql_string, value_type, value_big_int,
  value_string,
}
use goapptrace.Sql.Rows.{
  Row, func_log_row, goroutine_row, go_func_row, go_module_row, Getter, calls_id, calls_gid,
  calls_starttime, calls_endtime, calls_exectime, frames_id, frames_offset, frames_package,
  frames_func, frames_file, frames_line, frames_pc, goroutines_gid, goroutines_starttime,
  goroutines_endtime, goroutines_exectime, funcs_name, funcs_shortname, funcs_package, funcs_path,
  modules_module, frame_value, func_log_value, goroutine_value, go_func_value, go_module_value,
  read_field, of_func,
}
use goapptrace.Sql.Expressions.{SqlAny, literal, sql_field}
use goapptrace.Sql.Evaluation.{Libraries, big_int, string, type_of}
use goapptrace.Sql.Typing.{Kind, IsRow, IsField, IsOperand, getter_type, getter_kind, reads_frame}

-- A value of the type is returned.
abbrev pub Gives : SqlType → Outcome SqlValue → Type 0
Gives t o = (v : SqlValue) × (o ≡ ok v) × (value_type v ≡ t)

of_func-type :
    (show : List ℕ → List ℕ) (o : Option GoFunc) → value_type (of_func show o) ≡ string_type
of_func-type show none = refl
of_func-type show (some f) = refl

frame_value-Gives :
    (g : Getter) (s : Symbols) (pc : ℕ)
    → IsValidTable s.table
    → reads_frame g ≡ true
    → Gives (getter_type g) (frame_value g s pc)
unfolding frame_value
frame_value-Gives frames_package s pc v h =
    let (o, e) = go_func_cases s pc in
    (of_func package_path o, rw e refl, of_func-type package_path o)
frame_value-Gives frames_func s pc v h =
    let (o, e) = go_func_cases s pc in (of_func (λ n. n) o, rw e refl, of_func-type (λ n. n) o)
frame_value-Gives frames_file s pc v h =
    let (path, e, known) = file-known s pc v in (sql_string path, rw e refl, refl)
frame_value-Gives frames_line s pc v h =
    let (n, e) = line_cases s pc in (sql_big_int n, rw e refl, refl)
frame_value-Gives frames_pc s pc v h = (_, refl, refl)
frame_value-Gives g s pc v h = cc

module _ (f : FuncLog) (s : Symbols) (offset : ℕ) (v : IsValidTable s.table) where
  at_frame-Gives :
      (g : Getter)
      → reads_frame g ≡ true
      → (reads_frame g ≡ false) ⊎ (offset < length f.frames)
      → Gives (getter_type g) (or_panic (get_elem? f.frames offset) >>= λ pc. frame_value g s pc)
  at_frame-Gives g h (inl k) = cc
  at_frame-Gives g h (inr inside) =
      let (pc, e) = get_elem?-some f.frames offset inside in
      let (x, returned, typed) = frame_value-Gives g s pc v h in (x, rw e returned, typed)

  func_log_value-Gives :
      (g : Getter)
      → getter_kind g ≡ Kind.of_func_logs
      → (reads_frame g ≡ false) ⊎ (offset < length f.frames)
      → Gives (getter_type g) (func_log_value g f s offset)
  unfolding func_log_value
  func_log_value-Gives calls_id k r = (_, refl, refl)
  func_log_value-Gives calls_gid k r = (_, refl, refl)
  func_log_value-Gives calls_starttime k r = (_, refl, refl)
  func_log_value-Gives calls_endtime k r = (_, refl, refl)
  func_log_value-Gives calls_exectime k r = (_, refl, refl)
  func_log_value-Gives frames_id k r = (_, refl, refl)
  func_log_value-Gives frames_offset k r = (_, refl, refl)
  func_log_value-Gives frames_package k r = at_frame-Gives frames_package refl r
  func_log_value-Gives frames_func k r = at_frame-Gives frames_func refl r
  func_log_value-Gives frames_file k r = at_frame-Gives frames_file refl r
  func_log_value-Gives frames_line k r = at_frame-Gives frames_line refl r
  func_log_value-Gives frames_pc k r = at_frame-Gives frames_pc refl r
  func_log_value-Gives g k r = cc

goroutine_value-Gives :
    (g : Getter) (r : Goroutine)
    → getter_kind g ≡ Kind.of_goroutines
    → Gives (getter_type g) (goroutine_value g r)
unfolding goroutine_value
goroutine_value-Gives goroutines_gid r k = (_, refl, refl)
goroutine_value-Gives goroutines_starttime r k = (_, refl, refl)
goroutine_value-Gives goroutines_endtime r k = (_, refl, refl)
goroutine_value-Gives goroutines_exectime r k = (_, refl, refl)
goroutine_value-Gives g r k = cc

go_func_value-Gives :
    (format_uint : ℕ → List ℕ) (g : Getter) (f : GoFunc) (s : Symbols)
    → IsValidTable s.table
    → getter_kind g ≡ Kind.of_go_funcs
    → Gives (getter_type g) (go_func_value format_uint g f s)
unfolding go_func_value
go_func_value-Gives format_uint funcs_name f s v k = (_, refl, refl)
go_func_value-Gives format_uint funcs_shortname f s v k = (_, refl, refl)
go_func_value-Gives format_uint funcs_package f s v k = (_, refl, refl)
go_func_value-Gives format_uint funcs_path f s v k =
    let (path, e) = file_line-known format_uint s f.entry v in (sql_string path, rw e refl, refl)
go_func_value-Gives format_uint g f s v k = cc

go_module_value-Gives :
    (g : Getter) (m : GoModule)
    → getter_kind g ≡ Kind.of_go_modules
    → Gives (getter_type g) (go_module_value g m)
unfolding go_module_value
go_module_value-Gives modules_module m k = (_, refl, refl)
go_module_value-Gives g m k = cc

in_range :
    (framed : Bool) (reads : Bool) (A : Type 0)
    → (reads ≡ false) ⊎ (framed ≡ true)
    → (framed ≡ false) ⊎ A
    → (reads ≡ false) ⊎ A
in_range framed reads A (inl h) r = inl h
in_range framed reads A (inr h) (inl k) = cc
in_range framed reads A (inr h) (inr a) = inr a

read_field-Gives :
    (format_uint : ℕ → List ℕ) (k : Kind) (framed : Bool) (g : Getter) (r : Row)
    → getter_kind g ≡ k
    → (reads_frame g ≡ false) ⊎ (framed ≡ true)
    → IsRow k framed r
    → Gives (getter_type g) (read_field format_uint g r)
unfolding read_field
read_field-Gives format_uint k framed g (func_log_row f s offset) same h (k', v, range) =
    func_log_value-Gives f s offset v g (same ∙ k')
      (in_range framed (reads_frame g) (offset < length f.frames) h range)
read_field-Gives format_uint k framed g (goroutine_row x) same h k' =
    goroutine_value-Gives g x (same ∙ k')
read_field-Gives format_uint k framed g (go_func_row f s) same h (k', v) =
    go_func_value-Gives format_uint g f s v (same ∙ k')
read_field-Gives format_uint k framed g (go_module_row m) same h k' =
    go_module_value-Gives g m (same ∙ k')

-- A field of the type gives a value of it.
pub field-Gives :
    (format_uint : ℕ → List ℕ) (k : Kind) (framed : Bool) (t : SqlType) (g : Getter) (r : Row)
    → IsField k framed t g
    → IsRow k framed r
    → Gives t (read_field format_uint g r)
field-Gives format_uint k framed t g r (same, h, typed) row =
    let (v, e, typed') = read_field-Gives format_uint k framed g r same h row in
    (v, e, typed' ∙ typed)

big_int_value : (v : SqlValue) → value_type v ≡ big_int_type → (n : ℤ) × (value_big_int v ≡ ok n)
unfolding value_big_int
big_int_value (sql_big_int n) h = (n, refl)
big_int_value v h = cc

string_value : (v : SqlValue) → value_type v ≡ string_type → (n : List ℕ) × (value_string v ≡ ok n)
unfolding value_string
string_value (sql_string n) h = (n, refl)
string_value v h = cc

module _ (lib : Libraries) (k : Kind) (framed : Bool) (r : Row) (row : IsRow k framed r) where
  pub big_int_returns :
      (e : SqlAny) → IsOperand k framed big_int_type e → (n : ℤ) × (big_int lib r e ≡ ok n)
  unfolding big_int
  big_int_returns (literal v) h = big_int_value v h
  big_int_returns (sql_field f (some g)) h =
      let (v, e, typed) = field-Gives lib.format_uint k framed big_int_type g r h row in
      let (n, e') = big_int_value v typed in (n, rw e e')
  big_int_returns e h = absurd h

  pub string_returns :
      (e : SqlAny) → IsOperand k framed string_type e → (n : List ℕ) × (string lib r e ≡ ok n)
  unfolding string
  string_returns (literal v) h = string_value v h
  string_returns (sql_field f (some g)) h =
      let (v, e, typed) = field-Gives lib.format_uint k framed string_type g r h row in
      let (n, e') = string_value v typed in (n, rw e e')
  string_returns e h = absurd h

  pub type_of_operand : (t : SqlType) (e : SqlAny) → IsOperand k framed t e → type_of lib r e ≡ ok t
  unfolding type_of
  type_of_operand t (literal v) h = ap ok h
  type_of_operand t (sql_field f (some g)) h =
      let (v, e, typed) = field-Gives lib.format_uint k framed t g r h row in rw e (ap ok typed)
  type_of_operand t e h = absurd h
