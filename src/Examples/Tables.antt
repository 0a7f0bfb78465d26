-- ===== src/Examples/Tables.antt =====
-- tracer/types on a symbol table of one module, two functions and two lines.
use goapptrace.Base.{
  ℕ, ◌≤◌, ◌≡◌, ◌↔◌, refl, arith, true, false, List, [], ◌∷◌, ◌++◌, none, some, ok,
}
use goapptrace.Types.{SymbolsData, GoModule, GoFunc, GoLine}
use goapptrace.Symbols.{Symbols, validate, load, go_module, go_func, func_name, unknown}
use goapptrace.Symbols.Validity.{IsValidTable}
use goapptrace.Symbols.Validate.{validate_iff, load-ok, load-IsValidTable}
use goapptrace.Symbols.Scan.{FoundIn}
use goapptrace.Symbols.Lookup.{go_module_unique, go_func-nearest}
use goapptrace.Symbols.Names.{func_name-unknown}
use goapptrace.Symbols.Split.{
  index_byte, last_index_byte, package_path, short_name, package_path-short_name,
}

abbrev module_m : GoModule
module_m = record { name = b'm' ∷ []; min_pc = 100; max_pc = 900 }

abbrev func_f : GoFunc
func_f = record { entry = 200; name = b'f' ∷ [] }

abbrev line_3 : GoLine
line_3 = record { pc = 200; file_id = 0; line = 3 }

abbrev data_one : SymbolsData
data_one = record {
  files = (b'a' ∷ []) ∷ [];
  mods = module_m ∷ [];
  funcs = func_f ∷ record { entry = 300; name = b'g' ∷ [] } ∷ [];
  lines = line_3 ∷ record { pc = 300; file_id = 0; line = 8 } ∷ [];
}

abbrev symbols : Symbols
symbols = record { writable = false; table = data_one }

abbrev empty : Symbols
empty = record { writable = true; table = record { files = []; mods = []; funcs = []; lines = [] } }

data_one-IsValidTable : IsValidTable data_one
data_one-IsValidTable = record {
  files = omega arith;
  mods = omega arith;
  funcs = omega arith;
  lines = omega arith;
}

abbrev loaded : Symbols
loaded = record { writable = true; table = data_one }

load-loaded : load empty data_one ≡ ok loaded
load-loaded = load-ok empty data_one data_one-IsValidTable

validate_iff_example : (validate data_one ≡ none) ↔ IsValidTable data_one
validate_iff_example = validate_iff data_one

load-IsValidTable_example : IsValidTable data_one
load-IsValidTable_example = load-IsValidTable empty loaded data_one load-loaded

go_module-m : go_module symbols 250 ≡ some module_m
go_module-m =
    go_module_unique symbols 250 0 module_m data_one-IsValidTable refl (omega arith) (omega arith)

go_func-nearest_example :
    (f : GoFunc) × (go_func symbols 250 ≡ ok (some f))
    × (200 ≤ f.entry)
    × FoundIn (λ (x : GoFunc). x.entry) module_m 250 data_one.funcs f
go_func-nearest_example =
    go_func-nearest symbols 250 0 module_m func_f data_one-IsValidTable go_module-m refl
      (omega arith) (omega arith)

func_name-unknown_example : func_name symbols 250 ≡ ok unknown
func_name-unknown_example =
    func_name-unknown symbols 250 0 module_m func_f data_one-IsValidTable go_module-m refl
      (omega arith) (omega arith)

-- a/b.c
abbrev name : List ℕ
name = b'a' ∷ b'/' ∷ b'b' ∷ b'.' ∷ b'c' ∷ []

package_path-short_name_example : package_path name ++ (b'.' ∷ short_name name) ≡ name
unfolding index_byte last_index_byte
package_path-short_name_example = package_path-short_name name 1 refl
