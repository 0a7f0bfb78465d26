-- ===== src/Examples/Tracing.antt =====
-- tracer/simulator on a small trace: `main` calls `f`, and `f` calls itself under another TxID.
use goapptrace.Base.{ℕ, ◌+◌, ◌≡◌, refl, arith, [], ◌∷◌, ok, returns}
use goapptrace.Base.Int.{pos}
use goapptrace.Base.Maps.{int_eq, nat_eq, lookup}
use goapptrace.Types.{RawFuncLog, not_found_parent, func_start, func_end}
use goapptrace.Simulator.{StateSimulator, init, parent_of, next, next_start, run, started}
use goapptrace.Simulator.Invariant.{Inv, init-Inv}
use goapptrace.Simulator.Steps.{accepts, ids_used, next-Inv, returns-next}
use goapptrace.Simulator.Calls.{Call, Calls, done, call, raw_logs, IsProper, count}
use goapptrace.Simulator.Calls.Rebuild.{Rebuilt, run-raw_logs}

abbrev main_call : Call
main_call = record {
  txid = 7;
  began = pos 10;
  finished = pos 50;
  frames = 400 ∷ [];
  end_frames = 400 ∷ [];
  start_id = pos 0;
  end_id = pos 5;
}

abbrev f_call : ℕ → Call
f_call tx = record {
  txid = tx;
  began = pos 20;
  finished = pos 30;
  frames = 500 ∷ 400 ∷ [];
  end_frames = [];
  start_id = pos 1;
  end_id = pos 2;
}

-- main { f { f } }; f
abbrev trace : Calls
trace =
    call main_call (call (f_call 8) (call (f_call 9) done done) done) (call (f_call 7) done done)

init-parent : parent_of init (pos 3) ≡ not_found_parent
unfolding parent_of init lookup
init-parent = refl

trace-IsProper : IsProper trace
trace-IsProper = ground arith

count-trace : count trace ≡ 4
unfolding count
count-trace = refl

run-raw_logs_example :
    (s : StateSimulator) × (run init (raw_logs (pos 3) trace) ≡ ok s)
    × Rebuilt (pos 3) not_found_parent 0 trace init s
run-raw_logs_example =
    run-raw_logs (pos 3) not_found_parent 0 trace init init-Inv (omega (arith, count-trace))
      trace-IsProper init-parent

abbrev main_log : RawFuncLog
main_log = record {
  id = pos 0;
  tag = func_start;
  timestamp = pos 10;
  frames = 400 ∷ [];
  gid = pos 3;
  txid = 7;
}

abbrev end_log : RawFuncLog
end_log = record {
  id = pos 1;
  tag = func_end;
  timestamp = pos 20;
  frames = [];
  gid = pos 3;
  txid = 7;
}

abbrev in_main : StateSimulator
in_main = started init main_log

next-in_main : next init main_log ≡ ok in_main
unfolding next next_start
next-in_main = refl

next-Inv_example : Inv (0 + ids_used main_log) in_main
next-Inv_example = next-Inv 0 init in_main main_log (omega arith) init-Inv next-in_main

in_main-Inv : Inv 1 in_main
in_main-Inv = next-Inv 0 init in_main main_log (omega arith) init-Inv next-in_main

returns-next_example : returns (next in_main end_log) ≡ accepts in_main end_log
returns-next_example = returns-next 1 in_main end_log in_main-Inv
