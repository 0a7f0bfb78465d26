-- ===== src/Symbols.antt =====
-- tracer/types/symbols.go: the symbol table of a traced program, from a PC to its module, function
-- and line. The lock makes each method one step.
pub mod Validity
pub mod Validate
pub mod Scan
pub mod Lookup
pub mod Names
pub mod Split
use goapptrace.Base.{
  ℕ, zero, suc, ◌+◌, ◌≤◌, ◌<◌, ◌≡◌, Bool, true, false, ◌&&◌, ◌||◌, Option, none, some, List, [],
  ◌∷◌, ◌++◌, Outcome, ok, panic, ◌>>=◌, or_panic, leb, ltb, ◌==◌, if◌then◌else◌, length, get_elem?,
}
use goapptrace.Base.Int.{ℤ, pos, negsuc}
use goapptrace.Types.{GoModule, GoFunc, GoLine, SymbolsData}

pub record Symbols : Type 0 where
  pub writable : Bool
  pub table : SymbolsData

-- What Validate reports; the number is the index that the message names.
pub data Invalid : Type 0 where
  empty_file unsorted_mods unsorted_funcs unsorted_lines bad_file_id : ℕ → Invalid
  min_pc_zero max_pc_zero min_pc_not_below_max_pc : Invalid
  empty_name entry_zero : Invalid
  pc_zero line_zero : Invalid

-- Go's `error`: `none` is nil.
abbrev pub Failure : Type 0
Failure = Option Invalid

-- if err != nil { return err }
infixr 20 ◌or_else◌
abbrev pub ◌or_else◌ : Failure → Failure → Failure
none or_else next = next
some e or_else next = some e

abbrev pub check : Bool → Invalid → Failure
check true e = some e
check false e = none

abbrev pub is_empty {ℓ} : {A : Type ℓ} → List A → Bool
is_empty [] = true
is_empty (x ∷ xs) = false

unfoldable pub validate_go_module : GoModule → Failure
validate_go_module m =
    check (m.min_pc == 0) min_pc_zero
    or_else check (m.max_pc == 0) max_pc_zero
    or_else check (leb m.max_pc m.min_pc) min_pc_not_below_max_pc

unfoldable pub validate_go_func : GoFunc → Failure
validate_go_func f = check (is_empty f.name) empty_name or_else check (f.entry == 0) entry_zero

unfoldable pub validate_go_line : GoLine → Failure
validate_go_line l = check (l.pc == 0) pc_zero or_else check (l.line == 0) line_zero

unfoldable pub validate_files : ℕ → List (List ℕ) → Failure
validate_files i [] = none
validate_files i (f ∷ fs) = check (is_empty f) (empty_file i) or_else validate_files (i + 1) fs

unfoldable pub validate_mods : ℕ → ℕ → List GoModule → Failure
unfolding validate_go_module
validate_mods i pc [] = none
validate_mods i pc (m ∷ ms) =
    validate_go_module m
    or_else check (leb m.min_pc pc || leb m.max_pc pc) (unsorted_mods i)
    or_else validate_mods (i + 1) m.max_pc ms

unfoldable pub validate_funcs : ℕ → ℕ → List GoFunc → Failure
unfolding validate_go_func
validate_funcs i pc [] = none
validate_funcs i pc (f ∷ fs) =
    validate_go_func f
    or_else check (leb f.entry pc) (unsorted_funcs i)
    or_else validate_funcs (i + 1) f.entry fs

unfoldable pub validate_lines : ℕ → ℕ → ℕ → List GoLine → Failure
unfolding validate_go_line
validate_lines files i pc [] = none
validate_lines files i pc (l ∷ ls) =
    validate_go_line l
    or_else check (leb l.pc pc) (unsorted_lines i)
    or_else check (leb files l.file_id) (bad_file_id i)
    or_else validate_lines files (i + 1) l.pc ls

pub validate : SymbolsData → Failure
unfolding validate_files validate_mods validate_funcs validate_lines
validate sd =
    validate_files 0 sd.files
    or_else validate_mods 0 0 sd.mods
    or_else validate_funcs 0 0 sd.funcs
    or_else validate_lines (length sd.files) 0 0 sd.lines

-- Load panics on invalid data.
pub load : Symbols → SymbolsData → Outcome Symbols
load s d = elim (validate d) [ none ↦ ok (record s { table = d }) | some e ↦ panic ]

find_module : List GoModule → ℕ → Option GoModule
find_module [] pc = none
find_module (m ∷ ms) pc = if leb m.min_pc pc && leb pc m.max_pc then some m else find_module ms pc

pub go_module : Symbols → ℕ → Option GoModule
unfolding find_module
go_module s pc = find_module s.table.mods pc

-- The loops of GoFunc and GoLine: the index of the last element whose key is at most `pc`, among
-- those of the module. `best` is (found, idx).
pub scan {ℓ} : {A : Type ℓ} → (A → ℕ) → GoModule → ℕ → List A → ℕ → Option ℕ → Option ℕ
scan key m pc [] i best = best
scan key m pc (x ∷ xs) i best =
    let skipped = scan key m pc xs (i + 1) best in
    let advanced = scan key m pc xs (i + 1) (some i) in
    if ltb (key x) m.min_pc
    then skipped
    else if ltb m.max_pc (key x)
    then best
    else if leb (key x) pc
    then advanced
    else best

-- s.data.Funcs[idx], if found
pub indexed {ℓ} : {A : Type ℓ} → List A → Option ℕ → Outcome (Option A)
indexed xs none = ok none
indexed xs (some i) = do x ← or_panic (get_elem? xs i); ok (some x)

pub go_func : Symbols → ℕ → Outcome (Option GoFunc)
unfolding indexed
go_func s pc = elim (go_module s pc) [
  | none ↦ ok none
  | some m ↦ indexed s.table.funcs (scan (λ f. f.entry) m pc s.table.funcs 0 none)
]

pub go_line : Symbols → ℕ → Outcome (Option GoLine)
unfolding indexed
go_line s pc = elim (go_module s pc) [
  | none ↦ ok none
  | some m ↦ indexed s.table.lines (scan (λ l. l.pc) m pc s.table.lines 0 none)
]

-- "?"
abbrev pub unknown : List ℕ
unknown = b'?' ∷ []

-- The zero GoFunc, which GoFunc returns beside false, has the empty name.
pub func_name : Symbols → ℕ → Outcome (List ℕ)
func_name s pc = do fn ← go_func s pc; ok (elim fn [ some f ↦ unknown | none ↦ [] ])

file_of : Symbols → Option GoLine → Outcome (List ℕ)
file_of s none = ok unknown
file_of s (some l) =
    if leb l.file_id (length s.table.files)
    then or_panic (get_elem? s.table.files l.file_id)
    else ok unknown

pub file : Symbols → ℕ → Outcome (List ℕ)
unfolding file_of
file s pc = do l ← go_line s pc; file_of s l

pub line : Symbols → ℕ → Outcome ℤ
line s pc = do l ← go_line s pc; ok (elim l [ some ln ↦ pos ln.line | none ↦ negsuc 0 ])

name_of : Symbols → GoLine → Outcome (List ℕ)
name_of s l =
    if leb l.file_id (length s.table.files)
    then or_panic (get_elem? s.table.files l.file_id)
    else ok unknown

file_line_of : (ℕ → List ℕ) → Symbols → Option GoLine → Outcome (List ℕ)
unfolding name_of
file_line_of format_uint s none = ok (unknown ++ (b':' ∷ unknown))
file_line_of format_uint s (some l) = do
  filename ← name_of s l
  ok (filename ++ (b':' ∷ format_uint l.line))

-- FileLine; strconv.FormatUint is `format_uint`.
pub file_line : (ℕ → List ℕ) → Symbols → ℕ → Outcome (List ℕ)
unfolding file_line_of
file_line format_uint s pc = do l ← go_line s pc; file_line_of format_uint s l
