-- ===== src/Simulator.antt =====
-- tracer/simulator: StateSimulator rebuilds function calls and goroutines from the raw log. A
-- method is a function on the state; the lock makes each of them one step. A *FuncLog or *Goroutine
-- in a map is the entry itself, since each is in one map only.
pub mod Invariant
pub mod Steps
pub mod Calls
use goapptrace.Base.{
  ℕ, ◌≤◌, ◌≡◌, Bool, true, false, not, ◌&&◌, Option, none, some, List, [], ◌∷◌, map, Outcome, ok,
  panic, ◌>>=◌, or_panic, leb, ◌==◌, if◌then◌else◌, length,
}
use goapptrace.Base.Int.{ℤ, pos, ◌==ℤ◌, incr_int64}
use goapptrace.Base.Maps.{int_eq, nat_eq, lookup, insert, delete, retain}
use goapptrace.Types.{
  Goroutine, FuncLog, RawFuncLog, not_ended, not_found_parent, max_stack_size, func_start, func_end,
  is_ended,
}

pub record StateSimulator : Type 0 where
  pub next_id : ℤ
  pub func_logs : List (ℤ × FuncLog)
  pub txids : List (ℕ × ℤ)
  pub stacks : List (ℤ × ℤ)
  pub goroutines : List (ℤ × Goroutine)

unfoldable pub init : StateSimulator
init = record { next_id = pos 0; func_logs = []; txids = []; stacks = []; goroutines = [] }

abbrev pub is_some {ℓ} : {A : Type ℓ} → Option A → Bool
is_some none = false
is_some (some a) = true

-- s.stacks[gid]; a missing entry reads as the zero value.
abbrev pub stack_at : Option ℤ → ℤ
stack_at none = pos 0
stack_at (some id) = id

-- The parent of a call that starts now: the top of the goroutine's stack.
unfoldable pub parent_of : StateSimulator → ℤ → ℤ
parent_of s gid =
    if is_some (lookup gid s.goroutines) then stack_at (lookup gid s.stacks) else not_found_parent

pub new_func_log : StateSimulator → RawFuncLog → FuncLog
new_func_log s raw = record {
  id = s.next_id;
  start_time = raw.timestamp;
  end_time = not_ended;
  parent_id = parent_of s raw.gid;
  frames = raw.frames;
  gid = raw.gid;
}

-- s.goroutines[gid].EndTime = t
pub set_end_time : ℤ → ℤ → List (ℤ × Goroutine) → List (ℤ × Goroutine)
set_end_time gid t gs = elim (lookup gid gs) [
  | none ↦ gs
  | some g ↦ insert gid (record g { end_time = t }) gs
]

-- A new goroutine, or one that was believed to have ended.
pub started_goroutines : StateSimulator → RawFuncLog → List (ℤ × Goroutine)
started_goroutines s raw =
    if parent_of s raw.gid ==ℤ not_found_parent
    then elim (lookup raw.gid s.goroutines) [
      | none ↦
          insert raw.gid
            (record { gid = raw.gid; start_time = raw.timestamp; end_time = not_ended })
            s.goroutines
      | some g ↦ insert raw.gid (record g { end_time = not_ended }) s.goroutines
    ]
    else s.goroutines

-- The state after the start of a call.
pub started : StateSimulator → RawFuncLog → StateSimulator
started s raw = record {
  next_id = incr_int64 s.next_id;
  func_logs = insert s.next_id (new_func_log s raw) s.func_logs;
  txids = insert raw.txid s.next_id s.txids;
  stacks = insert raw.gid s.next_id s.stacks;
  goroutines = started_goroutines s raw;
}

-- The FuncStart case of Next. Cutting the pooled frames to len(raw.Frames) panics past their capacity.
unfoldable pub next_start : StateSimulator → RawFuncLog → Outcome StateSimulator
next_start s raw = if leb (length raw.frames) max_stack_size then ok (started s raw) else panic

-- The state after the end of the call `fl` with the ID `id`.
pub ended : StateSimulator → RawFuncLog → ℤ → FuncLog → StateSimulator
ended s raw id fl = record {
  next_id = s.next_id;
  func_logs = insert id (record fl { end_time = raw.timestamp }) s.func_logs;
  txids = delete raw.txid s.txids;
  stacks = insert raw.gid fl.parent_id s.stacks;
  goroutines =
      if fl.parent_id ==ℤ not_found_parent
      then set_end_time raw.gid raw.timestamp s.goroutines
      else s.goroutines;
}

-- The FuncEnd case of Next: it panics on an unknown goroutine, on an unknown TxID, and on a TxID
-- whose FuncLog is gone.
pub next_end : StateSimulator → RawFuncLog → Outcome StateSimulator
next_end s raw = do
  g ← or_panic (lookup raw.gid s.goroutines)
  id ← or_panic (lookup raw.txid s.txids)
  fl ← or_panic (lookup id s.func_logs)
  ok (ended s raw id fl)

unfoldable pub next : StateSimulator → RawFuncLog → Outcome StateSimulator
unfolding next_start next_end
next s raw =
    if raw.tag == func_start
    then next_start s raw
    else if raw.tag == func_end
    then next_end s raw
    else panic

-- A sequence of raw logs, as the server feeds them.
pub run : StateSimulator → List RawFuncLog → Outcome StateSimulator
run s [] = ok s
run s (raw ∷ raws) = do s' ← next s raw; run s' raws

-- FuncLogs and Goroutines return copies of the entries, in the order of the map.
unfoldable pub func_logs : StateSimulator → List FuncLog
func_logs s = map (λ e. e.1) s.func_logs

unfoldable pub goroutines : StateSimulator → List Goroutine
goroutines s = map (λ e. e.1) s.goroutines

-- Clear deletes the calls that have ended.
pub clear : StateSimulator → StateSimulator
unfolding is_ended
clear s = record s { func_logs = retain (λ fl. not (is_ended fl)) s.func_logs }
