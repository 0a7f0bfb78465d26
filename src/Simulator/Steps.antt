-- ===== src/Simulator/Steps.antt =====
-- Next and Clear keep the invariant, and when Next panics.
use goapptrace.Base.{
  ℕ, ◌+◌, ◌<◌, ◌^◌, ◌≡◌, arith, Bool, not, ◌&&◌, Option, none, some, ok, or_panic, leb, ◌==◌,
  length, inl, inr, Option-cases, Bool-cases, returns, subst, or_panic-eq-ok, ok-injective,
  >>=-eq-ok, if◌then◌else◌,
}
use goapptrace.Base.Int.{ℤ, ◌==ℤ◌}
use goapptrace.Base.Maps.{int_eq, nat_eq, lookup, kept, lookup-retain, retain-HasUniqueKeys}
use goapptrace.Types.{
  FuncLog, RawFuncLog, not_ended, max_stack_size, func_start, func_end, is_ended,
}
use native.Mathlib.Nat.{add-zero}
use goapptrace.Simulator.{StateSimulator, is_some, next_start, ended, next_end, next, clear}
use goapptrace.Simulator.Invariant.{Inv, IsRunning, started-Inv, ended-Inv}

-- The raw logs that Next takes: a start whose frames fit the pooled slice, an end of a known
-- goroutine and an open TxID.
pub accepts : StateSimulator → RawFuncLog → Bool
accepts s raw =
    if raw.tag == func_start
    then leb (length raw.frames) max_stack_size
    else (raw.tag == func_end)
      && is_some (lookup raw.gid s.goroutines)
      && is_some (lookup raw.txid s.txids)

-- An open TxID always has its FuncLog, so the nil dereference of FuncEnd is out of reach.
abbrev pub HasCall : StateSimulator → Option ℤ → Type 0
HasCall s none = Unit {0}
HasCall s (some id) = IsRunning (lookup id s.func_logs)

pub open_call : (n : ℕ) (s : StateSimulator) (tx : ℕ) → Inv n s → HasCall s (lookup tx s.txids)
open_call n s tx v = elim (Option-cases (lookup tx s.txids)) [
  | inl missing ↦ rw missing tt
  | inr (id, e) ↦ rw e (v.running tx id e)
]

-- A FuncEnd that returns has found its call.
pub next_end-eq-ok :
    (s s' : StateSimulator) (raw : RawFuncLog)
    → next_end s raw ≡ ok s'
    → (id : ℤ) × (fl : FuncLog) × (lookup raw.txid s.txids ≡ some id)
      × (lookup id s.func_logs ≡ some fl)
      × (ended s raw id fl ≡ s')
unfolding next_end
next_end-eq-ok s s' raw e =
    let (g, eg, e1) = >>=-eq-ok (or_panic (lookup raw.gid s.goroutines)) _ e in
    let (id, ei, e2) = >>=-eq-ok (or_panic (lookup raw.txid s.txids)) _ e1 in
    let (fl, ef, e3) = >>=-eq-ok (or_panic (lookup id s.func_logs)) _ e2 in
    (id, fl, or_panic-eq-ok _ ei, or_panic-eq-ok _ ef, ok-injective e3)

next_end-Inv :
    (n : ℕ) (s s' : StateSimulator) (raw : RawFuncLog) → Inv n s → next_end s raw ≡ ok s' → Inv n s'
next_end-Inv n s s' raw v e =
    let (id, fl, open_tx, there, end) = next_end-eq-ok s s' raw e in
    subst (Inv n) end (ended-Inv n s raw v id fl open_tx there)

-- IDs given out by one raw log.
abbrev pub ids_used : RawFuncLog → ℕ
ids_used raw = if raw.tag == func_start then 1 else 0

-- Next keeps the invariant: from a state with n IDs given out, every raw log that Next accepts
-- leads to a state with the invariant for n + 1 IDs on FuncStart and n IDs on FuncEnd, as long as
-- the int64 counter does not overflow.
pub next-Inv :
    (n : ℕ) (s s' : StateSimulator) (raw : RawFuncLog)
    → n + 1 < 2 ^ 63
    → Inv n s
    → next s raw ≡ ok s'
    → Inv (n + ids_used raw) s'
unfolding next next_start
next-Inv n s s' raw room v e = elim (Bool-cases (raw.tag == func_start)) [
  | inl start ↦ rw start (subst (Inv (n + 1)) (ground arith) (started-Inv n s raw v room))
  | inr other ↦ rw (other, add-zero) (next_end-Inv n s s' raw v (ground arith))
]

-- In a state with the invariant Next returns exactly on the raw logs that `accepts` lists, and
-- panics on all others.
pub returns-next :
    (n : ℕ) (s : StateSimulator) (raw : RawFuncLog) → Inv n s → returns (next s raw) ≡ accepts s raw
unfolding next next_start next_end accepts
returns-next n s raw v = ground (arith, open_call n s raw.txid v)

clear-running :
    (n : ℕ) (s : StateSimulator)
    → Inv n s
    → (tx : ℕ) (id : ℤ) → lookup tx s.txids ≡ some id
    → IsRunning (lookup id (clear s).func_logs)
unfolding clear is_ended
clear-running n s v tx id e =
    let r = v.running tx id e in
    ground
      (arith, lookup-retain (λ fl. not (not (fl.end_time ==ℤ not_ended))) id s.func_logs v.unique)

-- Clear deletes exactly the calls that have ended, and keeps the invariant.
pub clear-Inv :
    (n : ℕ) (s : StateSimulator)
    → Inv n s
    → Inv n (clear s)
      × ((id : ℤ)
          → lookup id (clear s).func_logs ≡ kept (λ fl. not (is_ended fl)) (lookup id s.func_logs))
unfolding clear
clear-Inv n s v =
    let live = λ (fl : FuncLog). not (is_ended fl) in
    let look = λ (id : ℤ). lookup-retain live id s.func_logs v.unique in
    (
      record {
        counter = v.counter;
        unique = retain-HasUniqueKeys live s.func_logs v.unique;
        given = λ id fl e. ground (arith, look id, v.given id fl);
        keyed = λ id fl e. ground (arith, look id, v.keyed id fl);
        running = λ tx id e. clear-running n s v tx id e;
        injective = v.injective;
      },
      look,
    )
