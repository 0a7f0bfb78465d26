-- ===== src/Encoding/Symbols.antt =====
-- The symbol table in tracer/encoding: modules, functions and lines of log.go, SymbolsData of types.go.
pub mod Format
pub mod RoundTrip
use goapptrace.Base.{ℕ, ◌+◌, List}
use goapptrace.Types.{GoModule, GoFunc, GoLine, SymbolsData}
use goapptrace.Encoding.Slices.{Marshal, Unmarshal, ◌&>◌, ◌>>=◌, map_unmarshal}
use goapptrace.Encoding.Buildin.{
  marshal_uint64, unmarshal_uint64, marshal_uint32, unmarshal_uint32, marshal_string,
  unmarshal_string, size_string, marshal_uintptr, unmarshal_uintptr, marshal_slice, unmarshal_slice,
  size_each, marshal_string_slice, unmarshal_string_slice, size_string_slice,
}
use goapptrace.Encoding.Ids.{marshal_file_id, unmarshal_file_id, size_file_id}

unfoldable pub marshal_go_module : GoModule → Marshal
marshal_go_module m = marshal_string m.name &> marshal_uintptr m.min_pc &> marshal_uintptr m.max_pc

unfoldable pub unmarshal_go_module : Unmarshal GoModule
unmarshal_go_module = do
  name ← unmarshal_string
  min_pc ← unmarshal_uintptr
  map_unmarshal (λ max_pc. record { name = name; min_pc = min_pc; max_pc = max_pc })
      unmarshal_uintptr

unfoldable pub size_go_module : GoModule → ℕ
size_go_module m = size_string m.name + 8 + 8

unfoldable pub marshal_go_func : GoFunc → Marshal
marshal_go_func s = marshal_string s.name &> marshal_uint64 s.entry

unfoldable pub unmarshal_go_func : Unmarshal GoFunc
unmarshal_go_func = do
  name ← unmarshal_string
  map_unmarshal (λ ptr. record { entry = ptr; name = name }) unmarshal_uint64

unfoldable pub size_go_func : GoFunc → ℕ
size_go_func fn = 8 + size_string fn.name

unfoldable pub marshal_go_line : GoLine → Marshal
marshal_go_line s = marshal_uintptr s.pc &> marshal_file_id s.file_id &> marshal_uint32 s.line

unfoldable pub unmarshal_go_line : Unmarshal GoLine
unmarshal_go_line = do
  pc ← unmarshal_uintptr
  file_id ← unmarshal_file_id
  map_unmarshal (λ line. record { pc = pc; file_id = file_id; line = line }) unmarshal_uint32

unfoldable pub size_go_line : GoLine → ℕ
size_go_line line = 8 + size_file_id + 4

unfoldable pub marshal_go_module_slice : List GoModule → Marshal
marshal_go_module_slice mods = marshal_slice marshal_go_module mods

unfoldable pub unmarshal_go_module_slice : Unmarshal (List GoModule)
unmarshal_go_module_slice = unmarshal_slice unmarshal_go_module

unfoldable pub size_go_module_slice : List GoModule → ℕ
size_go_module_slice mods = 8 + size_each size_go_module mods

unfoldable pub marshal_go_func_slice : List GoFunc → Marshal
marshal_go_func_slice funcs = marshal_slice marshal_go_func funcs

unfoldable pub unmarshal_go_func_slice : Unmarshal (List GoFunc)
unmarshal_go_func_slice = unmarshal_slice unmarshal_go_func

unfoldable pub size_go_func_slice : List GoFunc → ℕ
size_go_func_slice funcs = 8 + size_each size_go_func funcs

unfoldable pub marshal_go_line_slice : List GoLine → Marshal
marshal_go_line_slice lines = marshal_slice marshal_go_line lines

unfoldable pub unmarshal_go_line_slice : Unmarshal (List GoLine)
unmarshal_go_line_slice = unmarshal_slice unmarshal_go_line

unfoldable pub size_go_line_slice : List GoLine → ℕ
size_go_line_slice lines = 8 + size_each size_go_line lines

unfoldable pub marshal_symbols_data : SymbolsData → Marshal
marshal_symbols_data sd =
    marshal_string_slice sd.files
    &> marshal_go_module_slice sd.mods
    &> marshal_go_func_slice sd.funcs
    &> marshal_go_line_slice sd.lines

unfoldable pub unmarshal_symbols_data : Unmarshal SymbolsData
unmarshal_symbols_data = do
  files ← unmarshal_string_slice
  mods ← unmarshal_go_module_slice
  funcs ← unmarshal_go_func_slice
  map_unmarshal (λ lines. record { files = files; mods = mods; funcs = funcs; lines = lines })
      unmarshal_go_line_slice

unfoldable pub size_symbols_data : SymbolsData → ℕ
size_symbols_data sd =
    size_string_slice sd.files
    + size_go_module_slice sd.mods
    + size_go_func_slice sd.funcs
    + size_go_line_slice sd.lines
