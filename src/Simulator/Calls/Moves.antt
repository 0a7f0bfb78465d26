-- ===== src/Simulator/Calls/Moves.antt =====
-- What one start or one end changes: the known goroutines, the stack top, the entries.
use goapptrace.Base.{
  ℕ, ◌≤◌, ◌≡◌, ◌≢◌, refl, arith, true, some, List, [], ◌∷◌, ◌++◌, ok, ◌>>=◌, length, inl, inr,
  Option-cases, Bool-cases, Outcome-cases, le→leb,
}
use goapptrace.Base.Int.{ℤ, ◌==ℤ◌, ==ℤ_iff}
use goapptrace.Base.Maps.{int_eq, nat_eq, lookup, lookup-insert, lookup-insert_self}
use goapptrace.Types.{Goroutine, FuncLog, RawFuncLog, not_found_parent, max_stack_size}
use goapptrace.Simulator.{
  StateSimulator, is_some, stack_at, parent_of, new_func_log, set_end_time, started_goroutines,
  started, next_start, ended, next_end, next, run,
}
use goapptrace.Simulator.Invariant.{Inv, IsGiven}
use goapptrace.Simulator.Calls.{Call, start_log, end_log}

abbrev pub IsKnown : StateSimulator → ℤ → Type 0
IsKnown s gid = is_some (lookup gid s.goroutines) ≡ true

pub run-append :
    (s : StateSimulator) (xs ys : List RawFuncLog) → run s (xs ++ ys) ≡ (run s xs >>= λ t. run t ys)
unfolding run
run-append s [] ys = refl
run-append s (x ∷ xs) ys = elim (Outcome-cases (next s x)) [
  | inl e ↦ rw e
  | inr (t, e) ↦ rw e (run-append t xs ys)
]

-- After a start the goroutine is known, and the new call is on top of its stack.
pub started-IsKnown : (s : StateSimulator) (raw : RawFuncLog) → IsKnown (started s raw) raw.gid
unfolding started started_goroutines parent_of
started-IsKnown s raw = elim (Option-cases (lookup raw.gid s.goroutines)) [
  | inl e ↦ rw e (rw lookup-insert_self)
  | inr (g, e) ↦ elim (Bool-cases (stack_at (lookup raw.gid s.stacks) ==ℤ not_found_parent)) [
    | inl top ↦ rw e (rw top (rw lookup-insert_self))
    | inr under ↦ rw e (rw under (rw e))
  ]
]

pub parent_of-started :
    (s : StateSimulator) (raw : RawFuncLog) → parent_of (started s raw) raw.gid ≡ s.next_id
unfolding started parent_of
parent_of-started s raw = rw (started-IsKnown s raw, lookup-insert_self)

set_end_time-known :
    (gid t : ℤ) (gs : List (ℤ × Goroutine)) (g : Goroutine)
    → lookup gid gs ≡ some g
    → is_some (lookup gid (set_end_time gid t gs)) ≡ true
unfolding set_end_time
set_end_time-known gid t gs g e = rw (e, set_end_time) (rw lookup-insert_self)

pub ended-IsKnown :
    (s : StateSimulator) (raw : RawFuncLog) (id : ℤ) (fl : FuncLog)
    → IsKnown s raw.gid
    → IsKnown (ended s raw id fl) raw.gid
unfolding ended
ended-IsKnown s raw id fl k = elim (Option-cases (lookup raw.gid s.goroutines)) [
  | inl e ↦ ground arith
  | inr (g, e) ↦ elim (Bool-cases (fl.parent_id ==ℤ not_found_parent)) [
    | inl top ↦ rw top (set_end_time-known raw.gid raw.timestamp s.goroutines g e)
    | inr under ↦ rw (under, e)
  ]
]

-- After an end the caller is on top again.
pub parent_of-ended :
    (s : StateSimulator) (raw : RawFuncLog) (id : ℤ) (fl : FuncLog)
    → IsKnown s raw.gid
    → parent_of (ended s raw id fl) raw.gid ≡ fl.parent_id
unfolding ended parent_of
parent_of-ended s raw id fl k = rw (ended-IsKnown s raw id fl k, lookup-insert_self)

-- The entry that a start makes, and the entry after its end.
module _ (n : ℕ) (s : StateSimulator) (raw : RawFuncLog) where
  pub started-entry : lookup s.next_id (started s raw).func_logs ≡ some (new_func_log s raw)
  unfolding started
  started-entry = lookup-insert_self s.next_id (new_func_log s raw) s.func_logs

  pub started-kept :
      (id : ℤ)
      → Inv n s
      → IsGiven n id
      → lookup id (started s raw).func_logs ≡ lookup id s.func_logs
  unfolding started
  started-kept id v h = ground (
    arith,
    lookup-insert s.next_id id (new_func_log s raw) s.func_logs,
    v.counter,
    ==ℤ_iff s.next_id id,
  )

  pub ended-kept :
      (id j : ℤ) (fl : FuncLog)
      → j ≢ id
      → lookup j (ended s raw id fl).func_logs ≡ lookup j s.func_logs
  unfolding ended
  ended-kept id j fl h =
      ground (
        arith,
        lookup-insert id j (record fl { end_time = raw.timestamp }) s.func_logs,
        ==ℤ_iff id j,
      )

  pub ended-entry :
      (id : ℤ) (fl : FuncLog)
      → lookup id (ended s raw id fl).func_logs ≡ some (record fl { end_time = raw.timestamp })
  unfolding ended
  ended-entry id fl = lookup-insert_self id (record fl { end_time = raw.timestamp }) s.func_logs

pub next-start :
    (s : StateSimulator) (gid : ℤ) (c : Call)
    → length c.frames ≤ max_stack_size
    → next s (start_log gid c) ≡ ok (started s (start_log gid c))
unfolding next next_start start_log
next-start s gid c fits = rw (le→leb (length c.frames) max_stack_size fits)

pub next-end :
    (s : StateSimulator) (gid : ℤ) (c : Call) (id : ℤ) (fl : FuncLog)
    → IsKnown s gid
    → lookup c.txid s.txids ≡ some id
    → lookup id s.func_logs ≡ some fl
    → next s (end_log gid c) ≡ ok (ended s (end_log gid c) id fl)
unfolding next next_end end_log
next-end s gid c id fl k open_tx there = ground arith
