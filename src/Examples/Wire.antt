-- ===== src/Examples/Wire.antt =====
-- tracer/encoding and tracer/protocol on small records and packets.
use goapptrace.Base.{
  ℕ, ◌+◌, ◌*◌, ◌≤◌, ◌<◌, ◌≡◌, refl, arith, List, [], ◌∷◌, ◌++◌, Option, some, ok, length, take,
  drop, replicate, length-replicate, length-append,
}
use goapptrace.Base.Int.{pos, negsuc}
use goapptrace.Types.{Goroutine, FuncLog, RawFuncLog, SymbolsData, IsSymbolsData, max_stack_size}
use goapptrace.Encoding.Slices.{RoundTrips}
use goapptrace.Encoding.Log.{marshal_raw_func_log, unmarshal_raw_func_log, size_raw_func_log}
use goapptrace.Encoding.Log.RoundTrip.{raw_func_log-RoundTrips}
use goapptrace.Encoding.Symbols.{
  marshal_symbols_data, unmarshal_symbols_data, size_symbols_data, size_go_module_slice,
  size_go_module, size_go_func_slice, size_go_func, size_go_line_slice, size_go_line,
}
use goapptrace.Encoding.Buildin.{size_string_slice, size_string, size_each}
use goapptrace.Encoding.Ids.{size_file_id}
use goapptrace.Encoding.Symbols.RoundTrip.{symbols_data-RoundTrips}
use goapptrace.Protocol.{Json, Packet, symbol, ping, detect_packet_type}
use goapptrace.Protocol.Bodies.{body_bytes}
use goapptrace.Protocol.Proto.{pack_to_byte_slice, unpack, incomplete, unpacked}
use goapptrace.Protocol.Framing.{
  IsPacket, packet_bytes, payload_bytes, length-packet_bytes, unpack-cut_packet,
  pack_to_byte_slice-unpack,
}
use goapptrace.Protocol.Merge.{MergePacket, new_merge_packet, len, written, merge_all}
use goapptrace.Protocol.Merge.Batches.{
  Holds, new_merge_packet-Holds, messages, UnpacksTo, length-symbol_packet, merge_all-UnpacksTo,
}

abbrev zeros : ℕ → List ℕ
zeros n = replicate n 0

length-zeros : (n : ℕ) → length (zeros n) ≡ n
length-zeros n = length-replicate n 0

abbrev goroutine : Goroutine
goroutine = record { gid = pos 3; start_time = pos 10; end_time = negsuc 0 }

abbrev func_log : FuncLog
func_log = record {
  id = pos 1;
  start_time = pos 10;
  end_time = negsuc 0;
  parent_id = negsuc 0;
  frames = 500 ∷ 400 ∷ [];
  gid = pos 3;
}

abbrev raw_func_log : RawFuncLog
raw_func_log = record {
  id = pos 1;
  tag = 1;
  timestamp = pos 10;
  frames = 500 ∷ 400 ∷ [];
  gid = pos 3;
  txid = 7;
}

raw_func_log-RoundTrips_example :
    (8 * (5 + length raw_func_log.frames) + 1 ≤ size_raw_func_log)
    × RoundTrips
        (marshal_raw_func_log raw_func_log)
        (unmarshal_raw_func_log max_stack_size)
        raw_func_log
        (8 * (5 + length raw_func_log.frames) + 1)
        (zeros 600)
unfolding size_raw_func_log
raw_func_log-RoundTrips_example =
    raw_func_log-RoundTrips raw_func_log (zeros 600)
      (record {
        id = omega arith;
        tag = omega arith;
        timestamp = omega arith;
        frames = omega arith;
        gid = omega arith;
        txid = omega arith;
      })
      (omega (arith, length-zeros 600))

abbrev table : SymbolsData
table = record {
  files = (97 ∷ []) ∷ [];
  mods = record { name = 109 ∷ []; min_pc = 100; max_pc = 900 } ∷ [];
  funcs = record { entry = 200; name = 102 ∷ [] } ∷ [];
  lines = record { pc = 200; file_id = 0; line = 3 } ∷ [];
}

table-IsSymbolsData : IsSymbolsData table
table-IsSymbolsData = record {
  files = omega arith;
  mods = omega arith;
  funcs = omega arith;
  lines = omega arith;
}

size-table : size_symbols_data table ≡ 99
unfolding size_symbols_data size_string_slice size_go_module_slice size_go_module size_go_func_slice
    size_go_func size_go_line_slice size_go_line size_file_id size_each size_string
size-table = refl

symbols_data-RoundTrips_example :
    RoundTrips
      (marshal_symbols_data table)
      unmarshal_symbols_data
      table
      (size_symbols_data table)
      (zeros 200)
symbols_data-RoundTrips_example =
    symbols_data-RoundTrips table (zeros 200) table-IsSymbolsData
      (omega (arith, length-zeros 200, size-table))

-- The text itself, as a JSON that needs no quotes.
abbrev json : Json
json = record {
  IsText = λ s. Unit {0};
  encode = λ s. s;
  decode = λ s. some s;
  decode-encode = λ s h. refl;
}

ping-IsPacket : IsPacket json ping
unfolding payload_bytes body_bytes detect_packet_type
ping-IsPacket = (tt, omega arith)

symbol-IsPacket : IsPacket json (symbol table)
symbol-IsPacket = (
  table-IsSymbolsData,
  omega
      (arith, length-symbol_packet json table, length-packet_bytes json (symbol table), size-table),
)

length-ping : length (packet_bytes json ping) ≡ 5
unfolding payload_bytes body_bytes detect_packet_type
length-ping = omega (arith, length-packet_bytes json ping)

length-symbol : length (packet_bytes json (symbol table)) ≡ 104
length-symbol = omega (arith, length-symbol_packet json table, size-table)

pack_to_byte_slice-unpack_example :
    (out : List ℕ) × let n = length (packet_bytes json (symbol table)) in
      (pack_to_byte_slice json (symbol table) (zeros 1024) ≡ ok (out, n))
      × (drop n out ≡ drop n (zeros 1024))
      × (unpack json (take n out ++ (0 ∷ 0 ∷ [])) ≡ unpacked (symbol table) n)
pack_to_byte_slice-unpack_example =
    pack_to_byte_slice-unpack json (symbol table) (zeros 1024) (0 ∷ 0 ∷ []) symbol-IsPacket
      (omega (arith, length-symbol, length-zeros 1024))

unpack-cut_packet_example :
    (out : List ℕ) × (n : ℕ) × (pack_to_byte_slice json (symbol table) (zeros 1024) ≡ ok (out, n))
    × ((k : ℕ) → k < n → unpack json (take k out) ≡ incomplete)
unpack-cut_packet_example =
    unpack-cut_packet json (symbol table) (zeros 1024) symbol-IsPacket
      (omega (arith, length-symbol, length-zeros 1024))

abbrev packets : List Packet
packets = ping ∷ symbol table ∷ ping ∷ []

length-messages : length (messages json packets) ≡ 114
unfolding messages
length-messages = omega (
  arith,
  length-append (packet_bytes json ping) (messages json (symbol table ∷ ping ∷ [])),
  length-append (packet_bytes json (symbol table)) (messages json (ping ∷ [])),
  length-append (packet_bytes json ping) [],
  length-ping,
  length-symbol,
)

merge_all-UnpacksTo_example :
    (mq : MergePacket) × (merge_all json packets (new_merge_packet 200) ≡ ok mq)
    × (len mq ≡ length (messages json packets))
    × UnpacksTo json packets (written mq)
merge_all-UnpacksTo_example =
    merge_all-UnpacksTo json (new_merge_packet 200) packets (new_merge_packet-Holds 200)
      (ping-IsPacket, (symbol-IsPacket, (ping-IsPacket, tt))) (omega (arith, length-messages))

-- A writer that takes three bytes and fails.
abbrev broken : List ℕ → ℕ × Option ℕ
broken b = (3, some 28)

abbrev filled : MergePacket
filled = record { buffer_size = 4; buff = some (1 ∷ 2 ∷ 0 ∷ 0 ∷ []); size = 2 }

filled-Holds : Holds filled (1 ∷ 2 ∷ [])
unfolding written
filled-Holds = record { size = refl; front = refl; capacity = refl; written = refl }
