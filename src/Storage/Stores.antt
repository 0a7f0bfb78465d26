-- ===== src/Storage/Stores.antt =====
-- tracer/storage/stores.go: the stores of RawFuncLogs, FuncLogs and Goroutines. The index of a record
-- is its ID.
pub mod RoundTrip
use goapptrace.Base.{ℕ, ◌⊎◌, List, Option, Outcome, ok, ◌>>=◌}
use goapptrace.Base.Int.{ℤ}
use goapptrace.Types.{Goroutine, FuncLog, RawFuncLog, max_stack_size}
use goapptrace.Encoding.Slices.{Unmarshal}
use goapptrace.Encoding.Log.{
  marshal_goroutine, unmarshal_goroutine, marshal_func_log, unmarshal_func_log,
  marshal_raw_func_log, unmarshal_raw_func_log,
}
use goapptrace.Storage.WriteBuffer.{Io}
use goapptrace.Storage.ReadBuffer.{ReadIo}
use goapptrace.Storage.Store.{Store, StoreError, read_nolock, write_nolock}

-- A decode function, which ignores the size that is returned.
unfoldable pub decode_record {ℓ} : {A : Type ℓ} → Unmarshal A → List ℕ → Outcome A
decode_record u buf = u buf >>= λ p. ok p.0

abbrev pub Stored : Type 0
Stored = Outcome (Store × Option StoreError)

abbrev pub Found : Type 0 → Type 0
Found A = Outcome (Store × (A ⊎ StoreError))

unfoldable pub get_raw_func_log : Io → ReadIo → ℤ → Store → Found RawFuncLog
unfolding decode_record read_nolock
get_raw_func_log io rio id s =
    read_nolock io rio id (decode_record (unmarshal_raw_func_log max_stack_size)) s

unfoldable pub set_raw_func_log : Io → Io → RawFuncLog → Store → Stored
unfolding write_nolock
set_raw_func_log seeking writing raw s =
    write_nolock seeking writing raw.id (marshal_raw_func_log raw) s

unfoldable pub get_func_log : Io → ReadIo → ℤ → Store → Found FuncLog
unfolding decode_record read_nolock
get_func_log io rio id s =
    read_nolock io rio id (decode_record (unmarshal_func_log max_stack_size)) s

unfoldable pub set_func_log : Io → Io → FuncLog → Store → Stored
unfolding write_nolock
set_func_log seeking writing fl s = write_nolock seeking writing fl.id (marshal_func_log fl) s

unfoldable pub get_goroutine : Io → ReadIo → ℤ → Store → Found Goroutine
unfolding decode_record read_nolock
get_goroutine io rio id s = read_nolock io rio id (decode_record unmarshal_goroutine) s

unfoldable pub set_goroutine : Io → Io → Goroutine → Store → Stored
unfolding write_nolock
set_goroutine seeking writing g s = write_nolock seeking writing g.gid (marshal_goroutine g) s
