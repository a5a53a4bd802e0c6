-- ===== src/Io/Client/Closing.antt =====
-- TCPClient: how a connection is closed.
use hulatang_io.Base.{
  ℕ, ◌≡◌, refl, [], ◌∷◌, Bool, true, false, eq→==, Option, none, some, ok, aborted, Succeeds, ◌>>=◌,
  >>=-inverse,
}
use hulatang_io.Buffer.{Buffer}
use hulatang_io.Io.FdTable.{channel_at}
use hulatang_io.Io.Channel.{Channel, Poller, Op, Event, ctl_mod, ctl_del}
use hulatang_io.Io.Connection
use hulatang_io.Io.Connection.{Connection, connect_established, connect_destroyed}
use hulatang_io.Io.Connection.Life.{Registered, connect_established-connect_destroyed}
use hulatang_io.Io.Client.{
  Client, destroy, disconnect, remove_connection, new_connection, stored, run_task, run_all,
  run_round,
}

module _ (K : Type 0) (ctl : Op → Event → K → Option K) where
  -- The client with a connection at an address, and nothing queued.
  abbrev open_at : ℕ → (ℕ → Connection) → Poller K → Client K
  open_at address store p = record {
    connection = some address;
    store = store;
    tasks = [];
    poller = p;
  }

  -- The client that has given its connection up and has still to destroy it.
  abbrev leaving : ℕ → (ℕ → Connection) → Poller K → Client K
  leaving address store p = record {
    connection = none;
    store = store;
    tasks = destroy address ∷ [];
    poller = p;
  }

  first_round :
      (address : ℕ) (store : ℕ → Connection) (p : Poller K)
      → run_round K ctl (disconnect (open_at address store p)) ≡ ok (leaving address store p)
  unfolding run_round run_all run_task disconnect remove_connection
  first_round address store p = rw (eq→== address address refl) refl

  first_round_twice :
      (address : ℕ) (store : ℕ → Connection) (p : Poller K)
      → run_round K ctl (disconnect (disconnect (open_at address store p))) ≡ aborted
  unfolding run_round run_all run_task disconnect remove_connection
  first_round_twice address store p = rw (eq→== address address refl) refl

  second_round :
      (address : ℕ) (store : ℕ → Connection) (p : Poller K) (r : Connection × Poller K)
      → connect_destroyed K ctl (store address) p ≡ ok r
      → run_round K ctl (leaving address store p)
        ≡ ok (record {
          connection = none;
          store = stored address r.0 store;
          tasks = [];
          poller = r.1;
        })
  unfolding run_round run_all run_task
  second_round address store p r e = rw e refl

module _ (K : Type 0) (ctl : Op → Event → K → Option K) (registered : K → ℕ → Bool)
    (ctl_mod-registered : (e : Event) (k : K)
      → registered k e.fd ≡ true
      → (k' : K) × (ctl ctl_mod e k ≡ some k') × (registered k' e.fd ≡ true))
    (ctl_del-registered : (e : Event) (k : K)
      → registered k e.fd ≡ true
      → (k' : K) × (ctl ctl_del e k ≡ some k') × (registered k' e.fd ≡ false)) where
  -- Let the kernel change and delete the registrations that it has. A client that connects over a
  -- registered channel and disconnects has no connection and no task after two rounds of its loop,
  -- and its descriptor is given up in the table and in the kernel; a client that disconnects twice
  -- before the first round fails an assertion there.
  pub disconnect_lem :
      (address : ℕ) (channel : Channel) (send_buffer recv_buffer : Buffer) (store : ℕ → Connection)
      (p : Poller K)
      → Registered K ctl registered ctl_mod-registered ctl_del-registered channel p
      → Succeeds
          (new_connection K ctl address channel send_buffer recv_buffer
              (record { connection = none; store = store; tasks = []; poller = p })
            >>= λ c. run_round K ctl (disconnect c) >>= run_round K ctl)
          (λ c.
            (c.connection ≡ none)
            × (c.tasks ≡ [])
            × (channel_at c.poller.table channel.fd ≡ none)
            × (registered c.poller.kernel channel.fd ≡ false))
        × (new_connection K ctl address channel send_buffer recv_buffer
                (record { connection = none; store = store; tasks = []; poller = p })
              >>= (λ c. run_round K ctl (disconnect (disconnect c)))
            ≡ aborted)
  unfolding new_connection
  disconnect_lem address channel send_buffer recv_buffer store p h =
      let conn = Connection.new_connection channel send_buffer recv_buffer in
      let life =
        connect_established-connect_destroyed K ctl registered ctl_mod-registered ctl_del-registered
          conn p refl h in
      let parts =
        >>=-inverse (connect_established K ctl conn p) (λ r. connect_destroyed K ctl r.0 r.1) life.0
          life.1 in
      let store' = stored address parts.0.0 store in
      let here : store' address ≡ parts.0.0 = rw (eq→== address address refl) refl in
      let destroyed : connect_destroyed K ctl (store' address) parts.0.1 ≡ ok life.0 =
        rw here parts.2 in
      (
        (
          record {
            connection = none;
            store = stored address life.0.0 store';
            tasks = [];
            poller = life.0.1;
          },
          rw parts.1 (
              rw (first_round K ctl address store' parts.0.1)
                (second_round K ctl address store' parts.0.1 life.0 destroyed)),
          (refl, refl, life.2.3, life.2.4),
        ),
        rw parts.1 (first_round_twice K ctl address store' parts.0.1),
      )
