-- ===== src/Examples/Searching.antt =====
-- A search of the calls by a WHERE clause: exectime > 10 AND FRAME(func LIKE 'f%').
use goapptrace.Base.{
  ℕ, ◌≤◌, ◌<◌, ◌≡◌, refl, arith, Bool, true, false, List, [], ◌∷◌, Option, none, some, Outcome, ok,
  ◌==◌, if◌then◌else◌, length,
}
use goapptrace.Base.Int.{pos}
use goapptrace.Types.{FuncLog, SymbolsData}
use goapptrace.Symbols.{Symbols}
use goapptrace.Symbols.Validity.{IsValidTable}
use goapptrace.Sql.{same_type, big_int_type, string_type, sql_big_int, sql_string}
use goapptrace.Sql.Rows.{
  max_offset, set_offset, read_field, Row, func_log_row, calls_exectime, frames_func, frames_offset,
}
use goapptrace.Sql.Expressions.{
  greater_than, equal, like, SqlAny, literal, sql_field, and_op, comp_op, func_frame, with_row,
}
use goapptrace.Sql.Fields.{field_of}
use goapptrace.Sql.Evaluation.{Libraries, State}
use goapptrace.Sql.Typing.{Typing}
use goapptrace.Restapi.{run, lines}
use goapptrace.Restapi.Window.{run-window, run_bounds, window, filter}
use goapptrace.Restapi.Where.{where_bool, new_state}

abbrev pub table : SymbolsData
table = record {
  files = (b'm' ∷ []) ∷ [];
  mods = record { name = b'm' ∷ []; min_pc = 100; max_pc = 900 } ∷ [];
  funcs = record { entry = 200; name = b'f' ∷ [] } ∷ [];
  lines = record { pc = 200; file_id = 0; line = 3 } ∷ [];
}

pub table-IsValidTable : IsValidTable table
table-IsValidTable = record {
  files = omega arith;
  mods = omega arith;
  funcs = omega arith;
  lines = omega arith;
}

abbrev pub symbols : Symbols
symbols = record { writable = false; table = table }

abbrev pub call : FuncLog
call = record {
  id = pos 0;
  start_time = pos 10;
  end_time = pos 25;
  parent_id = pos 0;
  frames = 210 ∷ 950 ∷ [];
  gid = pos 1;
}

abbrev row : Row
row = func_log_row call symbols 0

abbrev exectime_clause : SqlAny
exectime_clause =
    comp_op 1 greater_than
      (sql_field (record { table = "calls"; name = "exectime"; alias_name = "" }) none)
      (literal (sql_big_int (pos 10)))

abbrev func_clause : SqlAny
func_clause =
    comp_op 2 like (sql_field (record { table = "frames"; name = "func"; alias_name = "" }) none)
      (literal (sql_string (b'f' ∷ b'%' ∷ [])))

abbrev clause : SqlAny
clause =
    and_op
      (comp_op 1 greater_than
        (sql_field (record { table = "calls"; name = "exectime"; alias_name = "" })
          (some calls_exectime))
        (literal (sql_big_int (pos 10))))
      (func_frame true (
        comp_op 2 like
          (sql_field (record { table = "frames"; name = "func"; alias_name = "" })
            (some frames_func))
          (literal (sql_string (b'f' ∷ b'%' ∷ [])))))

with_row-clause : with_row row (and_op exectime_clause (func_frame false func_clause)) ≡ ok clause
unfolding with_row field_of
with_row-clause = refl

abbrev typing : Typing
typing i = if i == 1 then some (big_int_type, greater_than) else some (string_type, like)

-- A Glob that compares the first byte.
abbrev first_byte : List ℕ → List ℕ → Bool
first_byte (p ∷ ps) (b ∷ bs) = p == b
first_byte ps bs = false

abbrev lib : Libraries
lib = record { glob = first_byte; compile = λ p. none; format_uint = λ n. []; now = pos 0 }

-- FRAME finds the second frame, and leaves the offset of the row there.
abbrev second_frame : SqlAny
second_frame = func_frame true (
    comp_op 3 equal
      (sql_field (record { table = "frames"; name = "offset"; alias_name = "" })
        (some frames_offset))
      (literal (sql_big_int (pos 1))))

abbrev row_after : Outcome (Bool × State) → Option Row
row_after (ok (true, s)) = some s.row
row_after o = none

where_bool-second_frame :
    row_after (where_bool lib second_frame row (new_state row)) ≡ some (func_log_row call symbols 1)
unfolding where_bool max_offset set_offset read_field same_type
where_bool-second_frame = refl

abbrev odd : ℕ → Bool
odd n = n == 1

abbrev numbers : List ℕ
numbers = 1 ∷ 2 ∷ 1 ∷ 1 ∷ []

run-window_example :
    run (λ a (v : ℕ). ok (odd a, v)) (λ _ _. ok true) (pos 0) (pos 2) true true numbers 0
    ≡ ok (lines (window 0 2 (filter odd numbers)))
run-window_example = run-window odd 0 2 numbers 0 (omega arith) (omega arith) (omega arith)

-- LIMIT 2 sends one line.
one_line : window 0 2 (filter odd numbers) ≡ 1 ∷ []
one_line = refl

abbrev sent : List ℕ
sent = 1 ∷ []

run_bounds_example : (length sent ≤ 2) × (◌≡◌ {A = ℕ} 0 0 → length sent < 2)
run_bounds_example =
    run_bounds (λ a (v : ℕ). ok (odd a, v)) (λ _ _. ok true) 0 2 numbers sent 0 (omega arith)
      (omega arith) (omega arith)
      (run-window odd 0 2 numbers 0 (omega arith) (omega arith) (omega arith))
