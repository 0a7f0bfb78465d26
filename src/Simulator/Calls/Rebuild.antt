-- ===== src/Simulator/Calls/Rebuild.antt =====
-- The simulator run on the raw logs of nested calls.
use goapptrace.Base.{
  ℕ, ◌+◌, ◌≤◌, ◌<◌, ◌^◌, ◌≡◌, refl, sym, subst, ◌∙◌, arith, some, ◌∷◌, ok, All, All-append, All-map,
  All-zip,
}
use goapptrace.Base.Int.{ℤ, pos, pos_part, neg_part}
use goapptrace.Base.Maps.{
  int_eq, nat_eq, lookup, lookup-insert_self, lookup-insert_ne, lookup-delete_ne,
}
use goapptrace.Types.{FuncLog}
use native.Mathlib.Nat.{add-zero}
use goapptrace.Simulator.{StateSimulator, parent_of, new_func_log, started, ended, next, run}
use goapptrace.Simulator.Invariant.{Inv, IsGiven, started-Inv, ended-Inv}
use goapptrace.Simulator.Calls.{
  Call, Calls, done, call, count, start_log, end_log, raw_logs, func_logs_of, IsUnused, IsProper,
}
use goapptrace.Simulator.Calls.Moves.{
  IsKnown, run-append, started-IsKnown, parent_of-started, ended-IsKnown, parent_of-ended,
  started-entry, started-kept, ended-kept, ended-entry, next-start, next-end,
}

-- The result of running the raw logs of `c` from `s`, where `n` IDs were given out.
pub record Rebuilt (gid parent : ℤ) (n : ℕ) (c : Calls) (s s' : StateSimulator) : Type 0 where
  pub inv : Inv (n + count c) s'
  pub top : parent_of s' gid ≡ parent
  pub known : IsKnown s gid → IsKnown s' gid
  pub old : (id : ℤ) → IsGiven n id → lookup id s'.func_logs ≡ lookup id s.func_logs
  pub open_txs : (tx : ℕ) → IsUnused tx c → lookup tx s'.txids ≡ lookup tx s.txids
  pub recorded : All (λ fl. lookup fl.id s'.func_logs ≡ some fl) (func_logs_of gid parent n c)

-- The IDs of the rebuilt calls.
func_logs_of-ids :
    (gid parent : ℤ) (n : ℕ) (c : Calls)
    → All
        (λ fl. (neg_part fl.id ≡ 0) × (n ≤ pos_part fl.id) × (pos_part fl.id < n + count c))
        (func_logs_of gid parent n c)
unfolding func_logs_of count
func_logs_of-ids gid parent n done = tt
func_logs_of-ids gid parent n (call c inner later) = (
  omega arith,
  All-append _ (func_logs_of gid (pos n) (n + 1) inner) _
      (All-map _ _ (λ fl h. omega arith) (func_logs_of gid (pos n) (n + 1) inner)
        (func_logs_of-ids gid (pos n) (n + 1) inner))
      (All-map _ _ (λ fl h. omega arith) (func_logs_of gid parent (n + 1 + count inner) later)
        (func_logs_of-ids gid parent (n + 1 + count inner) later)),
)

-- One call: `s` before it, `s2` when the calls inside it are over, `s4` after the later ones.
module _ (gid parent : ℤ) (n : ℕ) (c : Call) (inner later : Calls) (s s2 : StateSimulator)
    (v : Inv n s) (top : parent_of s gid ≡ parent) (unused : IsUnused c.txid inner)
    (r2 : Rebuilt gid (pos n) (n + 1) inner (started s (start_log gid c)) s2) where
  fl0 : FuncLog
  fl0 = new_func_log s (start_log gid c)

  open_before_end : lookup c.txid s2.txids ≡ some s.next_id
  unfolding started start_log
  open_before_end = r2.open_txs c.txid unused ∙ lookup-insert_self c.txid s.next_id s.txids

  entry_before_end : lookup s.next_id s2.func_logs ≡ some fl0
  unfolding fl0
  entry_before_end =
      let e = v.counter in r2.old s.next_id (ground arith) ∙ started-entry n s (start_log gid c)

  IsKnown-before_end : IsKnown s2 gid
  unfolding start_log
  IsKnown-before_end = r2.known (started-IsKnown s (start_log gid c))

  s3 : StateSimulator
  unfolding fl0
  s3 = ended s2 (end_log gid c) s.next_id fl0

  end_step : next s2 (end_log gid c) ≡ ok s3
  unfolding s3
  end_step = next-end s2 gid c s.next_id fl0 IsKnown-before_end open_before_end entry_before_end

  Inv-after_end : Inv (n + 1 + count inner) s3
  unfolding s3 end_log
  Inv-after_end =
      ended-Inv (n + 1 + count inner) s2 (end_log gid c) r2.inv s.next_id fl0 open_before_end
        entry_before_end

  top_after_end : parent_of s3 gid ≡ parent
  unfolding s3 new_func_log start_log end_log
  top_after_end = parent_of-ended s2 (end_log gid c) s.next_id fl0 IsKnown-before_end ∙ top

  module _ (s4 : StateSimulator) (r4 : Rebuilt gid parent (n + 1 + count inner) later s3 s4) where
    call-old : (id : ℤ) → IsGiven n id → lookup id s4.func_logs ≡ lookup id s.func_logs
    unfolding s3 fl0
    call-old id h =
        let e = v.counter in
        r4.old id (omega arith)
        ∙ ended-kept n s2 (end_log gid c) s.next_id id fl0 (λ q. ground arith)
        ∙ r2.old id (omega arith)
        ∙ started-kept n s (start_log gid c) id v h

    call-open_txs :
        (tx : ℕ) → IsUnused tx (call c inner later) → lookup tx s4.txids ≡ lookup tx s.txids
    unfolding s3 fl0 started ended start_log end_log
    call-open_txs tx h =
        r4.open_txs tx h.2
        ∙ lookup-delete_ne c.txid tx s2.txids h.0
        ∙ r2.open_txs tx h.1
        ∙ lookup-insert_ne c.txid tx s.next_id s.txids h.0

    call-entry : lookup s.next_id s4.func_logs ≡ some (record fl0 { end_time = c.finished })
    unfolding s3 end_log
    call-entry =
        let e = v.counter in
        r4.old s.next_id (ground arith) ∙ ended-entry n s2 (end_log gid c) s.next_id fl0

    inner-recorded :
        All (λ fl. lookup fl.id s4.func_logs ≡ some fl) (func_logs_of gid (pos n) (n + 1) inner)
    unfolding s3
    inner-recorded =
        let e = v.counter in
        let logs = func_logs_of gid (pos n) (n + 1) inner in
        All-map _ _
          (λ fl h.
            r4.old fl.id (h.1.0, omega arith)
            ∙ ended-kept n s2 (end_log gid c) s.next_id fl.id fl0 (λ q. ground arith)
            ∙ h.0)
          logs (All-zip _ _ logs r2.recorded (func_logs_of-ids gid (pos n) (n + 1) inner))

    call-Rebuilt : Rebuilt gid parent n (call c inner later) s s4
    unfolding func_logs_of count fl0 new_func_log start_log end_log s3 ended
    call-Rebuilt = record {
      inv = subst (λ k. Inv k s4) (omega arith) r4.inv;
      top = r4.top;
      known = λ k. r4.known (ended-IsKnown s2 (end_log gid c) s.next_id fl0 IsKnown-before_end);
      old = call-old;
      open_txs = call-open_txs;
      recorded = (
        rw (← v.counter, ← top) call-entry,
        All-append _ (func_logs_of gid (pos n) (n + 1) inner) _ inner-recorded r4.recorded,
      );
    }

run-call :
    (s s1 t3 s2 s4 : StateSimulator) (gid : ℤ) (c : Call) (inner later : Calls)
    → next s (start_log gid c) ≡ ok s1
    → run s1 (raw_logs gid inner) ≡ ok s2
    → next s2 (end_log gid c) ≡ ok t3
    → run t3 (raw_logs gid later) ≡ ok s4
    → run s (raw_logs gid (call c inner later)) ≡ ok s4
unfolding run raw_logs
run-call s s1 t3 s2 s4 gid c inner later e1 e2 e3 e4 =
    rw e1
      (rw (run-append s1 (raw_logs gid inner) (end_log gid c ∷ raw_logs gid later), e2) (rw e3 e4))

-- For every goroutine, every tree of calls with at most MaxStackSize frames each and no TxID used
-- again inside its own call, and every state with the invariant whose counter has room: Next takes
-- all raw logs of the calls, in the order in which they are sent, without a panic. Afterwards the
-- invariant holds, the goroutine's stack top is what it was, the entries that were there are
-- unchanged, TxIDs of other calls are open or closed as before, and each call has a FuncLog with
-- its times, its frames, its goroutine and the ID of the call around it as its parent.
pub run-raw_logs :
    (gid parent : ℤ) (n : ℕ) (c : Calls) (s : StateSimulator)
    → Inv n s
    → n + count c < 2 ^ 63
    → IsProper c
    → parent_of s gid ≡ parent
    → (s' : StateSimulator) × (run s (raw_logs gid c) ≡ ok s') × Rebuilt gid parent n c s s'
unfolding count start_log
run-raw_logs gid parent n done s v room p top = (
  s,
  unfold run raw_logs in refl,
  record {
    inv = subst (λ k. Inv k s) (sym (add-zero n)) v;
    top = top;
    known = λ k. k;
    old = λ id h. refl;
    open_txs = λ tx h. refl;
    recorded = unfold func_logs_of in tt;
  },
)
run-raw_logs gid parent n (call c inner later) s v room p top =
    let s1 = started s (start_log gid c) in
    let e1 = next-start s gid c p.0 in
    let (s2, e2, r2) =
      run-raw_logs gid (pos n) (n + 1) inner s1 (started-Inv n s (start_log gid c) v (omega arith))
        (omega arith) p.2 (parent_of-started s (start_log gid c) ∙ v.counter) in
    let t3 = s3 gid parent n c inner later s s2 v top p.1 r2 in
    let (s4, e4, r4) =
      run-raw_logs gid parent (n + 1 + count inner) later t3
        (Inv-after_end gid parent n c inner later s s2 v top p.1 r2) (omega arith) p.3
        (top_after_end gid parent n c inner later s s2 v top p.1 r2) in
    (
      s4,
      run-call s s1 t3 s2 s4 gid c inner later e1 e2
          (end_step gid parent n c inner later s s2 v top p.1 r2) e4,
      call-Rebuilt gid parent n c inner later s s2 v top p.1 r2 s4 r4,
    )
