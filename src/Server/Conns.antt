-- ===== src/Server/Conns.antt =====
-- tracer/protocol/server.go: the connections of a server, by the pointer that xtcp gives for each,
-- and the events of all of them as they interleave.
use goapptrace.Base.{
  ℕ, ◌≡◌, ◌≢◌, ◌⊎◌, subst, refl, sym, ap, ◌∙◌, arith, ◌^◌, ◌-◌, false, List, [], ◌∷◌, ◌++◌, Option,
  none, some, if◌then◌else◌, ◌==◌, ==_iff, Bool-cases, Option-cases, inl, inr,
}
use goapptrace.Base.Int.{ℤ, pos, negsuc, ◌<ℤ◌, ◌≤ℤ◌, IsInt64, incr_int64}
use goapptrace.Base.Maps.{
  lookup, insert, lookup-insert, lookup-insert_self, lookup-insert_ne, nat_eq,
}
use goapptrace.Server.{Effect, Handler, ServerConn, Event, negotiate, greet, on_event, run}

-- s.connMap and s.nextConnID.
pub record Server : Type 0 where
  pub conn_map : List (ℕ × ServerConn)
  pub next_conn_id : ℤ

-- s.NewHandler; a new connection is not negotiated, and has no mocks.
module _ (new_handler : ℤ → Handler) where
  abbrev pub new_conn : ℤ → ServerConn
  new_conn n = record { id = n; handler = new_handler n; is_negotiated = false; mocked = false }

  abbrev pub conn_or_new : ℕ → Server → Option ServerConn → ServerConn × Server
  conn_or_new conn s (some srv_conn) = (srv_conn, s)
  conn_or_new conn s none = (
    new_conn s.next_conn_id,
    record {
      conn_map = insert conn (new_conn s.next_conn_id) s.conn_map;
      next_conn_id = incr_int64 s.next_conn_id;
    },
  )

  unfoldable pub get_server_conn : ℕ → Server → ServerConn × Server
  get_server_conn conn s = conn_or_new conn s (lookup conn s.conn_map)

  -- The connection in the map is changed through its pointer.
  unfoldable pub server_on_event : Event → ℕ → Server → Server × List Effect
  server_on_event e conn s =
      let found = get_server_conn conn s in
      let r = on_event e found.0 in
      (
        record { conn_map = insert conn r.0 found.1.conn_map; next_conn_id = found.1.next_conn_id },
        r.1,
      )

  -- The events of the connections as they come, and what each makes the server do.
  unfoldable pub server_run : List (ℕ × Event) → Server → Server × List (ℕ × List Effect)
  server_run [] s = (s, [])
  server_run ((conn, e) ∷ es) s =
      let r = server_on_event e conn s in
      let rest = server_run es r.0 in (rest.0, (conn, r.1) ∷ rest.1)

unfoldable pub events_of : ℕ → List (ℕ × Event) → List Event
events_of k [] = []
events_of k ((conn, e) ∷ es) = if conn == k then e ∷ events_of k es else events_of k es

unfoldable pub effects_of : ℕ → List (ℕ × List Effect) → List Effect
effects_of k [] = []
effects_of k ((conn, fx) ∷ es) = if conn == k then fx ++ effects_of k es else effects_of k es

-- IDs were given out, and no two connections have the same.
pub record IsServer (s : Server) : Type 0 where
  pub given : (k : ℕ) (c : ServerConn) → lookup k s.conn_map ≡ some c → c.id <ℤ s.next_conn_id
  pub distinct :
      (j k : ℕ) (c d : ServerConn)
      → lookup j s.conn_map ≡ some c
      → lookup k s.conn_map ≡ some d
      → c.id ≡ d.id
      → j ≡ k

-- nextConnID++ does not wrap.
abbrev pub HasNextId : Server → Type 0
HasNextId s = IsInt64 s.next_conn_id × (s.next_conn_id <ℤ pos (2 ^ 63 - 1))

incr_int64-above :
    (n : ℤ) → IsInt64 n × (n <ℤ pos (2 ^ 63 - 1)) → (n ≤ℤ incr_int64 n) × (n <ℤ incr_int64 n)
unfolding incr_int64
incr_int64-above (pos n) h = ground arith
incr_int64-above (negsuc n) h = ground arith

lt_irrefl : (n : ℤ) → ¬ (n <ℤ n)
lt_irrefl n h = omega arith

le_refl : (n : ℤ) → n ≤ℤ n
le_refl n = omega arith

on_event-id : (e : Event) (s : ServerConn) → (on_event e s).0.id ≡ s.id
unfolding on_event negotiate greet
on_event-id e s = ground arith

abbrev pub server : List (ℕ × ServerConn) → ℤ → Server
server m n = record { conn_map = m; next_conn_id = n }

-- What an entry of the map was before one was set.
lookup-insert-cases :
    (k j : ℕ) (c d : ServerConn) (m : List (ℕ × ServerConn))
    → lookup j (insert k c m) ≡ some d
    → ((k ≡ j) × (c ≡ d)) ⊎ (lookup j m ≡ some d)
lookup-insert-cases k j c d m e = ground (arith, lookup-insert k j c m)

insert-IsServer :
    (k : ℕ) (n : ℤ) (c : ServerConn) (s : Server)
    → IsServer s
    → s.next_conn_id ≤ℤ n
    → c.id <ℤ n
    → ((j : ℕ) (d : ServerConn) → lookup j s.conn_map ≡ some d → d.id ≡ c.id → j ≡ k)
    → IsServer (server (insert k c s.conn_map) n)
insert-IsServer k n c s h le lt only = record {
  given = λ j d e. elim (lookup-insert-cases k j c d s.conn_map e) [
    | inl (_, p) ↦ subst (λ x. x.id <ℤ n) p lt
    | inr old ↦ omega (arith, h.given j d old)
  ];
  distinct = λ i j a b ea eb same. elim (lookup-insert-cases k i c a s.conn_map ea) [
    | inl (p, q) ↦ elim (lookup-insert-cases k j c b s.conn_map eb) [
      | inl (p', q') ↦ omega arith
      | inr old ↦ sym p ∙ sym (only j b old (sym same ∙ sym (ap (λ x. x.id) q)))
    ]
    | inr old ↦ elim (lookup-insert-cases k j c b s.conn_map eb) [
      | inl (p', q') ↦ only i a old (same ∙ sym (ap (λ x. x.id) q')) ∙ p'
      | inr old' ↦ h.distinct i j a b old old' same
    ]
  ];
}

module _ (new_handler : ℤ → Handler) where
  get_server_conn-some :
      (k : ℕ) (c : ServerConn) (s : Server)
      → lookup k s.conn_map ≡ some c
      → get_server_conn new_handler k s ≡ (c, s)
  unfolding get_server_conn
  get_server_conn-some k c s e = ap (conn_or_new new_handler k s) e

  get_server_conn-none :
      (k : ℕ) (s : Server)
      → lookup k s.conn_map ≡ none
      → get_server_conn new_handler k s ≡ conn_or_new new_handler k s none
  unfolding get_server_conn
  get_server_conn-none k s e = ap (conn_or_new new_handler k s) e

  get_server_conn-IsServer :
      (k : ℕ) (s : Server)
      → HasNextId s
      → IsServer s
      → IsServer (get_server_conn new_handler k s).1
        × (lookup k (get_server_conn new_handler k s).1.conn_map
            ≡ some (get_server_conn new_handler k s).0)
  get_server_conn-IsServer k s room h = elim (Option-cases (lookup k s.conn_map)) [
    | inl e ↦ rw (get_server_conn-none k s e) (
      insert-IsServer k (incr_int64 s.next_conn_id) (new_conn new_handler s.next_conn_id) s h
          (incr_int64-above s.next_conn_id room).0 (incr_int64-above s.next_conn_id room).1
          (λ j d old same.
            absurd
              (lt_irrefl s.next_conn_id (subst (λ i. i <ℤ s.next_conn_id) same (h.given j d old)))),
      lookup-insert_self k (new_conn new_handler s.next_conn_id) s.conn_map,
    )
    | inr (c, e) ↦ rw (get_server_conn-some k c s e) (h, e)
  ]

  -- Where nextConnID, an int64, is not its largest value, so that it does not wrap: every event, of a
  -- known connection or of a new one, keeps the connections' IDs distinct and below the next one.
  pub server_on_event-IsServer :
      (e : Event) (k : ℕ) (s : Server)
      → HasNextId s
      → IsServer s
      → IsServer (server_on_event new_handler e k s).0
  unfolding server_on_event
  server_on_event-IsServer e k s room h =
      let found = get_server_conn new_handler k s in
      let (held, at) = get_server_conn-IsServer k s room h in
      let id = on_event-id e found.0 in
      insert-IsServer k found.1.next_conn_id (on_event e found.0).0 found.1 held
        (le_refl found.1.next_conn_id)
        (subst (λ i. i <ℤ found.1.next_conn_id) (sym id) (held.given k found.0 at))
        (λ j d old same. held.distinct j k d found.0 old at (same ∙ id))

  -- The connection of k after an event is the one it was, if there was one, or else new, and the
  -- others stay.
  server_on_event_self :
      (e : Event) (k : ℕ) (c : ServerConn) (s : Server)
      → lookup k s.conn_map ≡ some c
      → (lookup k (server_on_event new_handler e k s).0.conn_map ≡ some (on_event e c).0)
        × ((server_on_event new_handler e k s).1 ≡ (on_event e c).1)
  unfolding server_on_event
  server_on_event_self e k c s at =
      rw (get_server_conn-some k c s at) (lookup-insert_self k (on_event e c).0 s.conn_map, refl)

  server_on_event-other :
      (e : Event) (k j : ℕ) (s : Server)
      → k ≢ j
      → lookup j (server_on_event new_handler e k s).0.conn_map ≡ lookup j s.conn_map
  unfolding server_on_event
  server_on_event-other e k j s ne =
      let found = get_server_conn new_handler k s in
      lookup-insert_ne k j (on_event e found.0).0 found.1.conn_map ne
      ∙ elim (Option-cases (lookup k s.conn_map)) [
        | inl at ↦
            rw (get_server_conn-none k s at)
              (lookup-insert_ne k j (new_conn new_handler s.next_conn_id) s.conn_map ne)
        | inr (c, at) ↦ rw (get_server_conn-some k c s at)
      ]

  -- However the events of the connections interleave, what a known connection does is what it does
  -- on its own events alone, and so is the state it ends in.
  pub server_run-run :
      (es : List (ℕ × Event)) (k : ℕ) (c : ServerConn) (s : Server)
      → lookup k s.conn_map ≡ some c
      → (effects_of k (server_run new_handler es s).1 ≡ (run (events_of k es) c).1)
        × (lookup k (server_run new_handler es s).0.conn_map ≡ some (run (events_of k es) c).0)
  unfolding server_run effects_of events_of run
  server_run-run [] k c s at = (refl, at)
  server_run-run ((conn, e) ∷ es) k c s at = elim (Bool-cases (conn == k)) [
    | inl same ↦
        let is_k = (==_iff conn k).0 same in
        let (kept, did) = server_on_event_self e k c s at in
        let (fx, ends) =
          server_run-run es k (on_event e c).0 (server_on_event new_handler e k s).0 kept in
        rw (same, is_k) (rw (did, fx) refl, ends)
    | inr other ↦
        let ne : conn ≢ k = ground arith in
        let r =
          server_run-run es k c (server_on_event new_handler e conn s).0
            (server_on_event-other e conn k s ne ∙ at) in
        rw other r
  ]
