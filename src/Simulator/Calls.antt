-- ===== src/Simulator/Calls.antt =====
-- What the simulator is for: it rebuilds the calls of a goroutine from their starts and ends.
pub mod Moves
pub mod Rebuild
use goapptrace.Base.{ℕ, zero, suc, ◌+◌, ◌≤◌, ◌≡◌, List, [], ◌∷◌, ◌++◌, length}
use goapptrace.Base.{◌≢◌}
use goapptrace.Base.Int.{ℤ, pos}
use goapptrace.Types.{FuncLog, RawFuncLog, max_stack_size, func_start, func_end}

-- One call of a traced function, as FuncStart and FuncEnd of the logger see it.
pub record Call : Type 0 where
  pub txid : ℕ
  pub began : ℤ
  pub finished : ℤ
  pub frames : List ℕ
  -- What the raw log of the end carries: its own stack trace, and the two RawFuncLogIDs.
  pub end_frames : List ℕ
  pub start_id : ℤ
  pub end_id : ℤ

-- The calls that one function makes, first to last: a call, the calls inside it, the later ones.
pub data Calls : Type 0 where
  done : Calls
  call : Call → Calls → Calls → Calls

unfoldable pub count : Calls → ℕ
count done = 0
count (call c inner later) = suc (count inner + count later)

pub start_log : ℤ → Call → RawFuncLog
start_log gid c = record {
  id = c.start_id;
  tag = func_start;
  timestamp = c.began;
  frames = c.frames;
  gid = gid;
  txid = c.txid;
}

pub end_log : ℤ → Call → RawFuncLog
end_log gid c = record {
  id = c.end_id;
  tag = func_end;
  timestamp = c.finished;
  frames = c.end_frames;
  gid = gid;
  txid = c.txid;
}

-- The raw logs of the goroutine `gid`, in the order in which they are sent.
pub raw_logs : ℤ → Calls → List RawFuncLog
raw_logs gid done = []
raw_logs gid (call c inner later) =
    start_log gid c ∷ (raw_logs gid inner ++ (end_log gid c ∷ raw_logs gid later))

-- The FuncLogs that describe the calls: numbered from `n` in the order of their starts, each with
-- the ID of the call around it as its parent.
pub func_logs_of : ℤ → ℤ → ℕ → Calls → List FuncLog
func_logs_of gid parent n done = []
func_logs_of gid parent n (call c inner later) =
    record {
      id = pos n;
      start_time = c.began;
      end_time = c.finished;
      parent_id = parent;
      frames = c.frames;
      gid = gid;
    }
    ∷ (func_logs_of gid (pos n) (n + 1) inner
        ++ func_logs_of gid parent (n + 1 + count inner) later)

-- No call carries the TxID.
abbrev pub IsUnused : ℕ → Calls → Type 0
IsUnused tx done = Unit {0}
IsUnused tx (call c inner later) = (c.txid ≢ tx) × IsUnused tx inner × IsUnused tx later

-- The frames fit, and a TxID is not used again inside its call.
abbrev pub IsProper : Calls → Type 0
IsProper done = Unit {0}
IsProper (call c inner later) =
    (length c.frames ≤ max_stack_size) × IsUnused c.txid inner × IsProper inner × IsProper later
