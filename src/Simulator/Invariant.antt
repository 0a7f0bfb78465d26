-- ===== src/Simulator/Invariant.antt =====
-- What holds of the simulator between two calls.
use goapptrace.Base.{
  ℕ, ◌+◌, ◌<◌, ◌^◌, ◌≡◌, refl, arith, Option, none, some, Option-cases, ◌≢◌, inl, inr,
}
use goapptrace.Base.Int.{ℤ, pos, pos_part, neg_part, ==ℤ_iff, incr_int64-pos}
use goapptrace.Base.Maps.{
  int_eq, nat_eq, lookup, HasUniqueKeys, lookup-insert, lookup-delete, insert-HasUniqueKeys,
}
use goapptrace.Types.{FuncLog, RawFuncLog, not_ended}
use goapptrace.Simulator.{StateSimulator, init, new_func_log, started, ended}

-- An ID that was given out.
abbrev pub IsGiven : ℕ → ℤ → Type 0
IsGiven n id = (neg_part id ≡ 0) × (pos_part id < n)

-- An entry is there, and its call has not ended.
abbrev pub IsRunning : Option FuncLog → Type 0
IsRunning none = ⊥
IsRunning (some fl) = fl.end_time ≡ not_ended

-- `n` IDs were given out. Each entry of funcLogs has a given ID and carries it; each open TxID
-- belongs to a running call, and to no other open TxID.
pub record Inv (n : ℕ) (s : StateSimulator) : Type 0 where
  pub counter : s.next_id ≡ pos n
  pub unique : HasUniqueKeys s.func_logs
  pub given : (id : ℤ) (fl : FuncLog) → lookup id s.func_logs ≡ some fl → IsGiven n id
  pub keyed : (id : ℤ) (fl : FuncLog) → lookup id s.func_logs ≡ some fl → fl.id ≡ id
  pub running : (tx : ℕ) (id : ℤ) → lookup tx s.txids ≡ some id → IsRunning (lookup id s.func_logs)
  pub injective :
      (t u : ℕ) (id : ℤ) → lookup t s.txids ≡ some id → lookup u s.txids ≡ some id → t ≡ u

pub init-Inv : Inv 0 init
unfolding init lookup
init-Inv = record {
  counter = refl;
  unique = tt;
  given = λ id fl e. cc;
  keyed = λ id fl e. cc;
  running = λ tx id e. cc;
  injective = λ t u id e f. cc;
}

module _ (n : ℕ) (s : StateSimulator) (raw : RawFuncLog) (v : Inv n s) where
  -- The next ID is in no entry.
  pub fresh_id : lookup s.next_id s.func_logs ≡ none
  fresh_id = elim (Option-cases (lookup s.next_id s.func_logs)) [
    | inl e ↦ e
    | inr (fl, e) ↦ let g = v.given s.next_id fl e in let c = v.counter in absurd (ground arith)
  ]

  fresh_open : (tx : ℕ) → lookup tx s.txids ≢ some s.next_id
  fresh_open tx e = let r = v.running tx s.next_id e in rw fresh_id at r

  started-IsGiven :
      (id : ℤ) (fl : FuncLog) → lookup id (started s raw).func_logs ≡ some fl → IsGiven (n + 1) id
  unfolding started
  started-IsGiven id fl e = ground (
    arith,
    lookup-insert s.next_id id (new_func_log s raw) s.func_logs,
    v.given id fl,
    v.counter,
    ==ℤ_iff s.next_id id,
  )

  started-keyed :
      (id : ℤ) (fl : FuncLog) → lookup id (started s raw).func_logs ≡ some fl → fl.id ≡ id
  unfolding started new_func_log
  started-keyed id fl e = ground (
    arith,
    lookup-insert s.next_id id (new_func_log s raw) s.func_logs,
    v.keyed id fl,
    ==ℤ_iff s.next_id id,
  )

  started-running :
      (tx : ℕ) (id : ℤ)
      → lookup tx (started s raw).txids ≡ some id
      → IsRunning (lookup id (started s raw).func_logs)
  unfolding started new_func_log
  started-running tx id e = ground (
    arith,
    lookup-insert raw.txid tx s.next_id s.txids,
    lookup-insert s.next_id id (new_func_log s raw) s.func_logs,
    v.running tx id,
    ==ℤ_iff s.next_id id,
  )

  started-injective :
      (t u : ℕ) (id : ℤ)
      → lookup t (started s raw).txids ≡ some id
      → lookup u (started s raw).txids ≡ some id
      → t ≡ u
  unfolding started
  started-injective t u id e f = ground (
    arith,
    lookup-insert raw.txid t s.next_id s.txids,
    lookup-insert raw.txid u s.next_id s.txids,
    v.injective t u id,
    fresh_open t,
    fresh_open u,
  )

  pub started-Inv : n + 1 < 2 ^ 63 → Inv (n + 1) (started s raw)
  unfolding started
  started-Inv room = record {
    counter = rw v.counter (incr_int64-pos n room);
    unique = insert-HasUniqueKeys s.next_id (new_func_log s raw) s.func_logs v.unique;
    given = started-IsGiven;
    keyed = started-keyed;
    running = started-running;
    injective = started-injective;
  }

  module _ (id : ℤ) (fl : FuncLog) (open_tx : lookup raw.txid s.txids ≡ some id)
      (there : lookup id s.func_logs ≡ some fl) where
    ended-IsGiven :
        (j : ℤ) (f : FuncLog) → lookup j (ended s raw id fl).func_logs ≡ some f → IsGiven n j
    unfolding ended
    ended-IsGiven j f e = ground (
      arith,
      lookup-insert id j (record fl { end_time = raw.timestamp }) s.func_logs,
      v.given j f,
      v.given id fl there,
      ==ℤ_iff id j,
    )

    ended-keyed : (j : ℤ) (f : FuncLog) → lookup j (ended s raw id fl).func_logs ≡ some f → f.id ≡ j
    unfolding ended
    ended-keyed j f e = ground (
      arith,
      lookup-insert id j (record fl { end_time = raw.timestamp }) s.func_logs,
      v.keyed j f,
      v.keyed id fl there,
      ==ℤ_iff id j,
    )

    ended-running :
        (tx : ℕ) (j : ℤ)
        → lookup tx (ended s raw id fl).txids ≡ some j
        → IsRunning (lookup j (ended s raw id fl).func_logs)
    unfolding ended
    ended-running tx j e = ground (
      arith,
      lookup-delete raw.txid tx s.txids,
      lookup-insert id j (record fl { end_time = raw.timestamp }) s.func_logs,
      v.running tx j,
      v.injective raw.txid tx id,
      ==ℤ_iff id j,
    )

    ended-injective :
        (t u : ℕ) (j : ℤ)
        → lookup t (ended s raw id fl).txids ≡ some j
        → lookup u (ended s raw id fl).txids ≡ some j
        → t ≡ u
    unfolding ended
    ended-injective t u j e f = ground (
      arith,
      lookup-delete raw.txid t s.txids,
      lookup-delete raw.txid u s.txids,
      v.injective t u j,
    )

    pub ended-Inv : Inv n (ended s raw id fl)
    unfolding ended
    ended-Inv = record {
      counter = v.counter;
      unique =
          insert-HasUniqueKeys id (record fl { end_time = raw.timestamp }) s.func_logs v.unique;
      given = ended-IsGiven;
      keyed = ended-keyed;
      running = ended-running;
      injective = ended-injective;
    }
