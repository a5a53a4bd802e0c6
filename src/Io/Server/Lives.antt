-- ===== src/Io/Server/Lives.antt =====
-- The life of a connection whose loop is not that of its server.
use hulatang_io.Base.{
  arith, Bool-cases, inl, inr, ℕ, ◌≡◌, ◌≢◌, refl, sym, ap, ◌∙◌, List, [], ◌∷◌, ◌++◌, Bool, true,
  false, ◌==◌, eq→==, ne→==, Option, none, some, Outcome, ok, ◌>>=◌, >>=-inverse, Succeeds,
}
use hulatang_io.Io.FdTable.{channel_at}
use hulatang_io.Io.Channel.{Poller, Op, Event, ctl_mod, ctl_del}
use hulatang_io.Io.Connection.{
  Connection, connecting, connected, disconnected, connect_established, connect_destroyed,
}
use hulatang_io.Io.Connection.Life.{Registered, connect_established-connect_destroyed}
use hulatang_io.Io.Server.Loops.{
  Task, establish, remove, destroy, Loops, at, has_key, erase_key, emplace_key, run_in, changed,
  establish_connection, destroy_connection, new_connection, remove_in_base, remove_connection,
  perform, perform_each, run_loop_tasks,
}

erase_absent : (key : ℕ) (ks : List ℕ) → has_key key ks ≡ false → erase_key key ks ≡ ks
unfolding has_key erase_key
erase_absent key [] h = refl
erase_absent key (k ∷ ks) h = elim (Bool-cases (k == key)) [
  | inl same ↦ absurd cc
  | inr other ↦ rw other (ap (λ t. k ∷ t) (erase_absent key ks (ground arith)))
]

erase_first : (key : ℕ) (ks : List ℕ) → has_key key ks ≡ false → erase_key key (key ∷ ks) ≡ ks
unfolding erase_key
erase_first key ks h = rw (eq→== key key refl) (erase_absent key ks h)

-- What is to be seen of the servers with one connection, in the loop `w`, and what waits in the two loops.
record View (K : Type 0) (base key w : ℕ) (keys : List ℕ) (conn : Connection) (p : Poller K)
    (at_base at_w : List Task) (s : Loops K) : Type 0 where
  map : s.keys ≡ keys
  object : s.store key ≡ conn
  home : s.loop_of key ≡ w
  poller : s.pollers w ≡ p
  base_queue : s.queues base ≡ at_base
  queue : s.queues w ≡ at_w

module _ (K : Type 0) (ctl : Op → Event → K → Option K) (base key w : ℕ) (apart : w ≢ base) where
  at_key : (key == key) ≡ true
  at_key = eq→== key key refl

  at_w : (w == w) ≡ true
  at_w = eq→== w w refl

  at_base : (base == base) ≡ true
  at_base = eq→== base base refl

  w_not_base : (w == base) ≡ false
  w_not_base = ne→== w base apart

  base_not_w : (base == w) ≡ false
  base_not_w = ne→== base w (λ e. apart (sym e))

  new_connection-View :
      (conn : Connection) (p : Poller K) (s : Loops K)
      → has_key key s.keys ≡ false
      → s.pollers w ≡ p
      → s.queues base ≡ []
      → s.queues w ≡ []
      → conn.channel.fd ≢ 0
      → Succeeds
          (new_connection K ctl base key w conn s)
          (View K base key w (key ∷ s.keys) conn p [] (establish key ∷ []))
  unfolding new_connection run_in emplace_key
  new_connection-View conn p s e ep eb ew h = (
    record s {
      keys = key ∷ s.keys;
      store = at key conn s.store;
      loop_of = at key w s.loop_of;
      queues = at w (s.queues w ++ establish key ∷ []) s.queues;
    },
    rw (ne→== conn.channel.fd 0 h, e, base_not_w) refl,
    record {
      map = refl;
      object = rw at_key refl;
      home = rw at_key refl;
      poller = ep;
      base_queue = rw base_not_w eb;
      queue = rw at_w (ap (λ q. q ++ establish key ∷ []) ew);
    },
  )

  -- The loop of the connection runs a task that makes `r` of it.
  home_runs :
      (t : Task) (ks : List ℕ) (conn : Connection) (p : Poller K) (s : Loops K)
      (call : Connection → Poller K → Outcome (Connection × Poller K)) (r : Connection × Poller K)
      → View K base key w ks conn p [] (t ∷ []) s
      → ((s' : Loops K)
          → perform K ctl base t s' ≡ (
              call (s'.store key) (s'.pollers (s'.loop_of key)) >>= λ q.
              ok (changed K ctl base key q s')))
      → call conn p ≡ ok r
      → Succeeds (run_loop_tasks K ctl base w s) (View K base key w ks r.0 r.1 [] [])
  unfolding run_loop_tasks perform_each
  home_runs t ks conn p s call r v acts done' =
      let s0 : Loops K = record s { queues = at w [] s.queues } in
      let called : call (s.store key) (s.pollers (s.loop_of key)) ≡ ok r =
        rw (v.home, v.object, v.poller) done' in
      (
        changed K ctl base key r s0,
        rw (v.queue, acts s0, called) refl,
        record {
          map = v.map;
          object = rw at_key refl;
          home = v.home;
          poller = rw (v.home, at_w) refl;
          base_queue = rw base_not_w v.base_queue;
          queue = rw at_w refl;
        },
      )

  remove_connection-View :
      (ks : List ℕ) (conn : Connection) (p : Poller K) (s : Loops K)
      → View K base key w ks conn p [] [] s
      → Succeeds
          (remove_connection K ctl base w key s)
          (View K base key w ks conn p (remove key ∷ []) [])
  unfolding remove_connection run_in
  remove_connection-View ks conn p s v = (
    record s { queues = at base (s.queues base ++ remove key ∷ []) s.queues },
    rw w_not_base refl,
    record {
      map = v.map;
      object = v.object;
      home = v.home;
      poller = v.poller;
      base_queue = rw at_base (ap (λ q. q ++ remove key ∷ []) v.base_queue);
      queue = rw w_not_base v.queue;
    },
  )

  base_removes :
      (ks : List ℕ) (conn : Connection) (p : Poller K) (s : Loops K)
      → has_key key ks ≡ false
      → View K base key w (key ∷ ks) conn p (remove key ∷ []) [] s
      → Succeeds
          (run_loop_tasks K ctl base base s)
          (View K base key w ks conn p [] (destroy key ∷ []))
  unfolding run_loop_tasks perform_each perform remove_in_base run_in has_key
  base_removes ks conn p s fresh v = (
    record s {
      keys = ks;
      queues = at w (at base [] s.queues w ++ destroy key ∷ []) (at base [] s.queues);
    },
    rw (v.base_queue, v.map, at_key, v.home, base_not_w, erase_first key ks fresh) refl,
    record {
      map = refl;
      object = v.object;
      home = v.home;
      poller = v.poller;
      base_queue = rw (base_not_w, at_base) refl;
      queue = rw (at_w, w_not_base) (ap (λ q. q ++ destroy key ∷ []) v.queue);
    },
  )

module _ (K : Type 0) (ctl : Op → Event → K → Option K) (registered : K → ℕ → Bool)
    (ctl_mod-registered : (e : Event) (k : K)
      → registered k e.fd ≡ true
      → (k' : K) × (ctl ctl_mod e k ≡ some k') × (registered k' e.fd ≡ true))
    (ctl_del-registered : (e : Event) (k : K)
      → registered k e.fd ≡ true
      → (k' : K) × (ctl ctl_del e k ≡ some k') × (registered k' e.fd ≡ false)) where
  -- Let the kernel change and delete the registrations that it has, and let the loops of the server and of a connection
  -- have no other task. A new connection, with a key that is not in the server's map and a channel that is registered in
  -- another loop than the server's, whatever other connections the server has: when that loop runs its tasks it is
  -- established; when it is then closed there, and the server's loop and again its own run their tasks, the map is what
  -- it was before, its callback was called once for each of both, its descriptor is given up in the table and in the
  -- kernel of its loop, and no task is left.
  pub new_connection-remove_connection_apart :
      (base key w : ℕ) (conn : Connection) (s : Loops K)
      → w ≢ base
      → has_key key s.keys ≡ false
      → s.queues base ≡ []
      → s.queues w ≡ []
      → conn.channel.fd ≢ 0
      → conn.state ≡ connecting
      → Registered K ctl registered ctl_mod-registered ctl_del-registered conn.channel (s.pollers w)
      → Succeeds
          (new_connection K ctl base key w conn s >>= λ s1. run_loop_tasks K ctl base w s1 >>= λ s2.
            remove_connection K ctl base w key s2 >>= λ s3.
            run_loop_tasks K ctl base base s3 >>= λ s4. run_loop_tasks K ctl base w s4)
          λ s'.
            (s'.keys ≡ s.keys)
            × ((s'.store key).notified ≡ (conn.notified ++ connected ∷ []) ++ disconnected ∷ [])
            × (channel_at (s'.pollers w).table conn.channel.fd ≡ none)
            × (registered (s'.pollers w).kernel conn.channel.fd ≡ false)
            × (s'.queues base ≡ [])
            × (s'.queues w ≡ [])
  new_connection-remove_connection_apart base key w conn s apart e eb ew h fresh known =
      let (last, run, facts) =
        connect_established-connect_destroyed K ctl registered ctl_mod-registered ctl_del-registered
          conn (s.pollers w) fresh known in
      let (r1, run1, run2) =
        >>=-inverse (connect_established K ctl conn (s.pollers w)) _ last run in
      let (s1, e1, v1) =
        new_connection-View K ctl base key w apart conn (s.pollers w) s e refl eb ew h in
      let (s2, e2, v2) =
        home_runs K ctl base key w apart (establish key) (key ∷ s.keys) conn (s.pollers w) s1
          (connect_established K ctl) r1 v1 (λ s'. unfold perform establish_connection in refl)
          run1 in
      let (s3, e3, v3) =
        remove_connection-View K ctl base key w apart (key ∷ s.keys) r1.0 r1.1 s2 v2 in
      let (s4, e4, v4) = base_removes K ctl base key w apart s.keys r1.0 r1.1 s3 e v3 in
      let (s5, e5, v5) =
        home_runs K ctl base key w apart (destroy key) s.keys r1.0 r1.1 s4 (connect_destroyed K ctl)
          last v4 (λ s'. unfold perform destroy_connection in refl) run2 in
      (
        s5,
        rw (e1, e2, e3, e4) e5,
        (
          v5.map,
          ap (λ c. c.notified) v5.object ∙ facts.2,
          ap (λ q. channel_at q.table conn.channel.fd) v5.poller ∙ facts.3,
          ap (λ q. registered q.kernel conn.channel.fd) v5.poller ∙ facts.4,
          v5.base_queue,
          v5.queue,
        ),
      )
