-- ===== src/Encoding/Symbols/RoundTrip.antt =====
-- The symbol table is read back as it was written.
use goapptrace.Base.{ℕ, ◌≤◌, List, length}
use goapptrace.Types.{SymbolsData, IsSymbolsData}
use goapptrace.Encoding.Slices.{RoundTrips, Writes-Reads-RoundTrips}
use goapptrace.Encoding.Symbols.{marshal_symbols_data, unmarshal_symbols_data, size_symbols_data}
use goapptrace.Encoding.Symbols.Format.{
  symbols_data_bytes, marshal_symbols_data-Writes, unmarshal_symbols_data-Reads,
  length-symbols_data_bytes,
}

-- For every SymbolsData whose fields fit their Go types and every buffer of at least
-- SizeSymbolsData(sd) bytes, MarshalSymbolsData writes exactly SizeSymbolsData(sd) bytes, changes
-- nothing behind them, and UnmarshalSymbolsData reads the same table and byte count back.
pub symbols_data-RoundTrips :
    (d : SymbolsData) (buf : List ℕ)
    → IsSymbolsData d
    → size_symbols_data d ≤ length buf
    → RoundTrips (marshal_symbols_data d) unmarshal_symbols_data d (size_symbols_data d) buf
symbols_data-RoundTrips d buf h room =
    Writes-Reads-RoundTrips _ _ d (symbols_data_bytes d) _ (marshal_symbols_data-Writes d)
      (unmarshal_symbols_data-Reads d h) (length-symbols_data_bytes d) buf room
