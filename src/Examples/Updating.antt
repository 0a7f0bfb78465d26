-- ===== src/Examples/Updating.antt =====
-- Two writers of the metadata of a log who read the same version; the second is refused.
use goapptrace.Base.{ℕ, ◌+◌, ◌≡◌, refl, arith, false, List, [], ◌∷◌, length}
use goapptrace.Base.Int.{pos, incr_int64}
use goapptrace.Base.Maps.{nat_eq, lookup, insert, delete}
use goapptrace.Types.Metadata.{LogMetadata}
use goapptrace.Storage.Log.{Log, with_timestamp}
use goapptrace.Storage.Log.Updates.{
  Edit, Step, read_log, write_log, Writers, run, edited, IsCurrent, run-edited,
}
use goapptrace.Examples.Reading.{lib}

abbrev metadata : LogMetadata
metadata = record {
  timestamp = pos 0;
  pid = pos 7;
  host = "h";
  app_name = "a";
  trace_target = [];
  ui = record { func_logs = []; funcs = []; goroutines = [] };
}

abbrev log : Log
log = record {
  id = [];
  version = pos 1;
  metadata = metadata;
  max_file_size = pos 0;
  read_only = false;
  callbacks = pos 5 ∷ [];
}

abbrev writers : Writers
writers = record { log = log; copies = [] }

abbrev set_pid : Edit
set_pid m = record m { pid = pos 8 }

abbrev steps : List Step
steps = read_log 0 ∷ read_log 1 ∷ write_log 0 (with_timestamp (pos 9)) ∷ write_log 1 set_pid ∷ []

accepted_edits : (run lib steps writers).1 ≡ with_timestamp (pos 9) ∷ []
unfolding run lookup insert delete incr_int64
accepted_edits = refl

writers-IsCurrent : IsCurrent 1 writers
unfolding lookup
writers-IsCurrent = (refl, λ i v m h. cc)

run-edited_example :
    ((run lib steps writers).0.log.metadata ≡ edited (run lib steps writers).1 metadata)
    × ((run lib steps writers).0.log.version ≡ pos (1 + length (run lib steps writers).1))
    × ((i : ℕ) (f : Edit)
        → (run lib (read_log i ∷ write_log i f ∷ []) (run lib steps writers).0).1 ≡ f ∷ [])
run-edited_example = run-edited lib steps 1 writers writers-IsCurrent (omega arith)
