-- ===== src/Encoding/Symbols/Format.antt =====
-- The bytes of the symbol table and of its parts, and that their functions write and read them.
use goapptrace.Base.{ℕ, ◌^◌, ◌<◌, ◌≡◌, arith, List, ◌++◌, length, length-append, All}
use goapptrace.Types.{
  GoModule, GoFunc, GoLine, SymbolsData, IsGoModule, IsGoFunc, IsGoLine, IsSymbolsData, IsString,
}
use goapptrace.Encoding.Slices.{Writes, Reads, &>-Writes, >>=-Reads, map_unmarshal-Reads}
use goapptrace.Encoding.Buildin.{
  marshal_uintptr, unmarshal_uintptr, marshal_string, unmarshal_string, size_string,
  marshal_string_slice, unmarshal_string_slice, size_string_slice,
}
use goapptrace.Encoding.Buildin.Format.{
  uint64_bytes, length-uint64_bytes, marshal_uint64-Writes, unmarshal_uint64-Reads, uint32_bytes,
  length-uint32_bytes, marshal_uint32-Writes, unmarshal_uint32-Reads, string_bytes,
  length-string_bytes, marshal_string-Writes, unmarshal_string-Reads, slice_bytes,
  length-slice_bytes, marshal_slice-Writes, unmarshal_slice-Reads,
}
use goapptrace.Encoding.Ids.{marshal_file_id, unmarshal_file_id, size_file_id}
use goapptrace.Encoding.Symbols.{
  marshal_go_module, unmarshal_go_module, size_go_module, marshal_go_func, unmarshal_go_func,
  size_go_func, marshal_go_line, unmarshal_go_line, size_go_line, marshal_go_module_slice,
  unmarshal_go_module_slice, size_go_module_slice, marshal_go_func_slice, unmarshal_go_func_slice,
  size_go_func_slice, marshal_go_line_slice, unmarshal_go_line_slice, size_go_line_slice,
  marshal_symbols_data, unmarshal_symbols_data, size_symbols_data,
}

pub go_module_bytes : GoModule → List ℕ
go_module_bytes m = string_bytes m.name ++ (uint64_bytes m.min_pc ++ uint64_bytes m.max_pc)

marshal_go_module-Writes : (m : GoModule) → Writes (marshal_go_module m) (go_module_bytes m)
unfolding marshal_go_module go_module_bytes marshal_uintptr
marshal_go_module-Writes m =
    &>-Writes _ _ _ _ (marshal_string-Writes m.name)
      (&>-Writes _ _ _ _ (marshal_uint64-Writes m.min_pc) (marshal_uint64-Writes m.max_pc))

unmarshal_go_module-Reads :
    (m : GoModule) → IsGoModule m → Reads unmarshal_go_module m (go_module_bytes m)
unfolding unmarshal_go_module go_module_bytes unmarshal_uintptr
unmarshal_go_module-Reads m h = >>=-Reads _ _ m.name m _ _ (unmarshal_string-Reads m.name h.name) (
    >>=-Reads _ _ m.min_pc m _ _ (unmarshal_uint64-Reads m.min_pc h.min_pc)
      (map_unmarshal-Reads _ _ m.max_pc _ (unmarshal_uint64-Reads m.max_pc h.max_pc)))

length-go_module_bytes : (m : GoModule) → length (go_module_bytes m) ≡ size_go_module m
unfolding go_module_bytes size_go_module
length-go_module_bytes m =
    omega (arith, length-append {0}, length-string_bytes, length-uint64_bytes)

pub go_func_bytes : GoFunc → List ℕ
go_func_bytes f = string_bytes f.name ++ uint64_bytes f.entry

marshal_go_func-Writes : (f : GoFunc) → Writes (marshal_go_func f) (go_func_bytes f)
unfolding marshal_go_func go_func_bytes
marshal_go_func-Writes f =
    &>-Writes _ _ _ _ (marshal_string-Writes f.name) (marshal_uint64-Writes f.entry)

unmarshal_go_func-Reads : (f : GoFunc) → IsGoFunc f → Reads unmarshal_go_func f (go_func_bytes f)
unfolding unmarshal_go_func go_func_bytes
unmarshal_go_func-Reads f h =
    >>=-Reads _ _ f.name f _ _ (unmarshal_string-Reads f.name h.name)
      (map_unmarshal-Reads _ _ f.entry _ (unmarshal_uint64-Reads f.entry h.entry))

length-go_func_bytes : (f : GoFunc) → length (go_func_bytes f) ≡ size_go_func f
unfolding go_func_bytes size_go_func
length-go_func_bytes f = omega (arith, length-append {0}, length-string_bytes, length-uint64_bytes)

pub go_line_bytes : GoLine → List ℕ
go_line_bytes l = uint64_bytes l.pc ++ (uint32_bytes l.file_id ++ uint32_bytes l.line)

marshal_go_line-Writes : (l : GoLine) → Writes (marshal_go_line l) (go_line_bytes l)
unfolding marshal_go_line go_line_bytes marshal_uintptr marshal_file_id
marshal_go_line-Writes l =
    &>-Writes _ _ _ _ (marshal_uint64-Writes l.pc)
      (&>-Writes _ _ _ _ (marshal_uint32-Writes l.file_id) (marshal_uint32-Writes l.line))

unmarshal_go_line-Reads : (l : GoLine) → IsGoLine l → Reads unmarshal_go_line l (go_line_bytes l)
unfolding unmarshal_go_line go_line_bytes unmarshal_uintptr unmarshal_file_id
unmarshal_go_line-Reads l h = >>=-Reads _ _ l.pc l _ _ (unmarshal_uint64-Reads l.pc h.pc) (
    >>=-Reads _ _ l.file_id l _ _ (unmarshal_uint32-Reads l.file_id h.file_id)
      (map_unmarshal-Reads _ _ l.line _ (unmarshal_uint32-Reads l.line h.line)))

length-go_line_bytes : (l : GoLine) → length (go_line_bytes l) ≡ size_go_line l
unfolding go_line_bytes size_go_line size_file_id
length-go_line_bytes l = omega (arith, length-append {0}, length-uint64_bytes, length-uint32_bytes)

pub symbols_data_bytes : SymbolsData → List ℕ
symbols_data_bytes d =
    slice_bytes string_bytes d.files
    ++ (slice_bytes go_module_bytes d.mods
        ++ (slice_bytes go_func_bytes d.funcs ++ slice_bytes go_line_bytes d.lines))

marshal_string_slice-Writes :
    (xs : List (List ℕ)) → Writes (marshal_string_slice xs) (slice_bytes string_bytes xs)
unfolding marshal_string_slice
marshal_string_slice-Writes = marshal_slice-Writes string_bytes marshal_string marshal_string-Writes

unmarshal_string_slice-Reads :
    (xs : List (List ℕ))
    → All IsString xs × (length xs < 2 ^ 63)
    → Reads unmarshal_string_slice xs (slice_bytes string_bytes xs)
unfolding unmarshal_string_slice
unmarshal_string_slice-Reads =
    unmarshal_slice-Reads string_bytes IsString unmarshal_string unmarshal_string-Reads

marshal_go_module_slice-Writes :
    (xs : List GoModule) → Writes (marshal_go_module_slice xs) (slice_bytes go_module_bytes xs)
unfolding marshal_go_module_slice
marshal_go_module_slice-Writes =
    marshal_slice-Writes go_module_bytes marshal_go_module marshal_go_module-Writes

unmarshal_go_module_slice-Reads :
    (xs : List GoModule)
    → All IsGoModule xs × (length xs < 2 ^ 63)
    → Reads unmarshal_go_module_slice xs (slice_bytes go_module_bytes xs)
unfolding unmarshal_go_module_slice
unmarshal_go_module_slice-Reads =
    unmarshal_slice-Reads go_module_bytes IsGoModule unmarshal_go_module unmarshal_go_module-Reads

marshal_go_func_slice-Writes :
    (xs : List GoFunc) → Writes (marshal_go_func_slice xs) (slice_bytes go_func_bytes xs)
unfolding marshal_go_func_slice
marshal_go_func_slice-Writes =
    marshal_slice-Writes go_func_bytes marshal_go_func marshal_go_func-Writes

unmarshal_go_func_slice-Reads :
    (xs : List GoFunc)
    → All IsGoFunc xs × (length xs < 2 ^ 63)
    → Reads unmarshal_go_func_slice xs (slice_bytes go_func_bytes xs)
unfolding unmarshal_go_func_slice
unmarshal_go_func_slice-Reads =
    unmarshal_slice-Reads go_func_bytes IsGoFunc unmarshal_go_func unmarshal_go_func-Reads

marshal_go_line_slice-Writes :
    (xs : List GoLine) → Writes (marshal_go_line_slice xs) (slice_bytes go_line_bytes xs)
unfolding marshal_go_line_slice
marshal_go_line_slice-Writes =
    marshal_slice-Writes go_line_bytes marshal_go_line marshal_go_line-Writes

unmarshal_go_line_slice-Reads :
    (xs : List GoLine)
    → All IsGoLine xs × (length xs < 2 ^ 63)
    → Reads unmarshal_go_line_slice xs (slice_bytes go_line_bytes xs)
unfolding unmarshal_go_line_slice
unmarshal_go_line_slice-Reads =
    unmarshal_slice-Reads go_line_bytes IsGoLine unmarshal_go_line unmarshal_go_line-Reads

pub marshal_symbols_data-Writes :
    (d : SymbolsData) → Writes (marshal_symbols_data d) (symbols_data_bytes d)
unfolding marshal_symbols_data symbols_data_bytes
marshal_symbols_data-Writes d = &>-Writes _ _ _ _ (marshal_string_slice-Writes d.files) (
    &>-Writes _ _ _ _ (marshal_go_module_slice-Writes d.mods) (
      &>-Writes _ _ _ _ (marshal_go_func_slice-Writes d.funcs)
        (marshal_go_line_slice-Writes d.lines)))

pub unmarshal_symbols_data-Reads :
    (d : SymbolsData) → IsSymbolsData d → Reads unmarshal_symbols_data d (symbols_data_bytes d)
unfolding unmarshal_symbols_data symbols_data_bytes
unmarshal_symbols_data-Reads d h =
    >>=-Reads _ _ d.files d _ _ (unmarshal_string_slice-Reads d.files h.files) (
      >>=-Reads _ _ d.mods d _ _ (unmarshal_go_module_slice-Reads d.mods h.mods) (
        >>=-Reads _ _ d.funcs d _ _ (unmarshal_go_func_slice-Reads d.funcs h.funcs)
          (map_unmarshal-Reads _ _ d.lines _ (unmarshal_go_line_slice-Reads d.lines h.lines))))

pub length-symbols_data_bytes :
    (d : SymbolsData) → length (symbols_data_bytes d) ≡ size_symbols_data d
unfolding symbols_data_bytes size_symbols_data size_go_module_slice size_go_func_slice
    size_go_line_slice size_string_slice
length-symbols_data_bytes d = omega (
  arith,
  length-append {0},
  length-slice_bytes string_bytes size_string length-string_bytes d.files,
  length-slice_bytes go_module_bytes size_go_module length-go_module_bytes d.mods,
  length-slice_bytes go_func_bytes size_go_func length-go_func_bytes d.funcs,
  length-slice_bytes go_line_bytes size_go_line length-go_line_bytes d.lines,
)
