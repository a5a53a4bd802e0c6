-- ===== src/Io/Client/Attempts.antt =====
-- A client that connects in spite of failures, and disconnects.
use hulatang_io.Base.{
  ℕ, suc, ◌≡◌, refl, ap, ◌∙◌, List, [], ◌∷◌, ◌++◌, Bool, true, false, Option, none, some, ok,
  aborted, ok-injective, ◌>>=◌, >>=-inverse, Succeeds, length,
}
use hulatang_io.Buffer.{Buffer}
use hulatang_io.Io.FdTable.{channel_at}
use hulatang_io.Io.Channel.{Channel, Poller, Op, Event, ctl_mod, ctl_del}
use hulatang_io.Io.Connection.{Connection}
use hulatang_io.Io.Connection.Life.{Registered}
use hulatang_io.Io.Connector.{
  Connector, Answer, pending, refused, Failure, at_once, later, start_in_loop, handle_write,
  established, connect, create_connect, is_disconnected, disconnected, connected, attempt, attempts,
  new_connector, channel_added, opened, request, connecting,
}
use hulatang_io.Io.Connector
use hulatang_io.Io.Connector.Backoff.{delays, backoff, request_other, attempts-backoff}
use hulatang_io.Io.Client.{Client, new_connection, disconnect, run_round}
use hulatang_io.Io.Client.Closing.{disconnect_lem}
use hulatang_io.Io.Client.Connecting.{
  Connecting, new_client, Step, connects, queued_start, timer_start, becomes_writable, disconnects,
  runs_tasks, start, writable, run_queued_start, step, run,
}
use hulatang_io.Io.Client.Connecting

opened-delays :
    (b : Bool) (c : Connector)
    → delays (established (record (opened b c) { has_model = true; state = connecting })).requests
      ≡ delays c.requests
unfolding established delays
opened-delays true c = request_other c.requests Connector.new_connection refl
opened-delays false c =
    request_other (c.requests ++ channel_added ∷ []) Connector.new_connection refl
    ∙ request_other c.requests channel_added refl

-- An attempt that succeeds asks for no delay.
connect-delays :
    (c : Connector) → delays (established (connect pending c)).requests ≡ delays c.requests
unfolding connect create_connect
connect-delays c = opened-delays c.has_channel c

module _ (K : Type 0) (ctl : Op → Event → K → Option K) (address : ℕ) (channel : Channel)
    (send_buffer recv_buffer : Buffer) where
  attempts-connecting :
      (fs : List Failure) (s : Connecting K) (c : Connector) (client : Client K)
      → attempts fs s.connector ≡ ok c
      → c.state ≡ disconnected
      → new_connection K ctl address channel send_buffer recv_buffer s.client ≡ ok client
      → run K ctl address channel send_buffer recv_buffer (Connecting.connecting timer_start fs) s
        ≡ ok (record s { connector = established (connect pending c); client = client })
  unfolding attempts attempt run step start start_in_loop writable
  attempts-connecting [] s c client e h made =
      let same = ok-injective s.connector c e in
      let ready : is_disconnected s.connector.state ≡ true =
        ap (λ k. is_disconnected k.state) same ∙ ap is_disconnected h in
      rw (ready, made, same) refl
  attempts-connecting (at_once err ∷ fs) s c client e h made =
      let (c1, e1, e2) = >>=-inverse (start_in_loop (refused err) s.connector) (attempts fs) c e in
      rw e1 (attempts-connecting fs (record s { connector = c1 }) c client e2 h made)
  attempts-connecting (later n ∷ fs) s c client e h made =
      let (c1, e1, e2) = >>=-inverse (attempt (later n) s.connector) (attempts fs) c e in
      let (c0, e3, e4) =
        >>=-inverse (start_in_loop pending s.connector) (λ k. ok (handle_write (suc n) k)) c1 e1 in
      let next = ok-injective (handle_write (suc n) c0) c1 e4 in
      rw (e3, next) (attempts-connecting fs (record s { connector = c1 }) c client e2 h made)

  -- The first attempt was queued by `connect`.
  queued-connecting :
      (fs : List Failure) (client : Client K)
      → run K ctl address channel send_buffer recv_buffer
          (Connecting.connecting queued_start fs)
          (record { connector = new_connector; client = client; connect_called = true; queued = 1 })
        ≡ run K ctl address channel send_buffer recv_buffer
            (Connecting.connecting timer_start fs)
            (record {
              connector = new_connector;
              client = client;
              connect_called = true;
              queued = 0;
            })
  unfolding run step run_queued_start
  queued-connecting [] client = refl
  queued-connecting (at_once err ∷ fs) client = refl
  queued-connecting (later n ∷ fs) client = refl

  start_queued :
      (fs : List Failure) (answer : Answer) (client : Client K)
      → run K ctl address channel send_buffer recv_buffer
          (connects false answer ∷ Connecting.connecting queued_start fs)
          (new_client client)
        ≡ run K ctl address channel send_buffer recv_buffer
            (Connecting.connecting queued_start fs)
            (record {
              connector = new_connector;
              client = client;
              connect_called = true;
              queued = 1;
            })
  unfolding run step start
  start_queued fs answer client = refl

  -- A connector that has had its connection does not start again.
  connects-again :
      (answer : Answer) (c : Connector) (client : Client K) (called : Bool) (queued : ℕ)
      → step K ctl address channel send_buffer recv_buffer (connects true answer) (record {
        connector = established c;
        client = client;
        connect_called = called;
        queued = queued;
      })
        ≡ aborted
  unfolding step start start_in_loop established
  connects-again answer c client called queued = refl

  ended :
      (s : Connecting K) (c1 c2 c3 : Client K)
      → s.client ≡ c1
      → run_round K ctl (disconnect c1) ≡ ok c2
      → run_round K ctl c2 ≡ ok c3
      → run K ctl address channel send_buffer recv_buffer
          (disconnects ∷ runs_tasks ∷ runs_tasks ∷ [])
          s
        ≡ ok (record s { client = c3 })
  unfolding run step
  ended s c1 c2 c3 e e2 e3 = rw (e, e2, e3) refl

module _ (K : Type 0) (ctl : Op → Event → K → Option K) (registered : K → ℕ → Bool)
    (ctl_mod-registered : (e : Event) (k : K)
      → registered k e.fd ≡ true
      → (k' : K) × (ctl ctl_mod e k ≡ some k') × (registered k' e.fd ≡ true))
    (ctl_del-registered : (e : Event) (k : K)
      → registered k e.fd ≡ true
      → (k' : K) × (ctl ctl_del e k ≡ some k') × (registered k' e.fd ≡ false)) where
  -- Let the kernel change and delete the registrations that it has. A client whose `connect` is called in another
  -- thread, and whose attempts fail, however many and at once or later, until one succeeds over a registered channel:
  -- the delays before the attempts are those of the backoff, one for each failure; where it then disconnects, two
  -- rounds of its loop leave it without a connection, and its descriptor given up in the table and in the kernel; and
  -- there `connect` in the thread of the loop fails an assertion.
  pub connects-disconnects :
      (fs : List Failure) (answer again : Answer) (address : ℕ) (channel : Channel)
      (send_buffer recv_buffer : Buffer) (store : ℕ → Connection) (p : Poller K)
      → Registered K ctl registered ctl_mod-registered ctl_del-registered channel p
      → Succeeds
          (run K ctl address channel send_buffer recv_buffer
              (connects false answer ∷ Connecting.connecting queued_start fs)
              (new_client (record { connection = none; store = store; tasks = []; poller = p }))
            >>= run K ctl address channel send_buffer recv_buffer
                (disconnects ∷ runs_tasks ∷ runs_tasks ∷ []))
          λ s.
            (delays s.connector.requests ≡ backoff 0 (length fs))
            × (s.client.connection ≡ none)
            × (channel_at s.client.poller.table channel.fd ≡ none)
            × (registered s.client.poller.kernel channel.fd ≡ false)
            × (step K ctl address channel send_buffer recv_buffer (connects true again) s ≡ aborted)
  connects-disconnects fs answer again address channel send_buffer recv_buffer store p h =
      let idle : Client K = record { connection = none; store = store; tasks = []; poller = p } in
      let (c3, all, facts) =
        (disconnect_lem K ctl registered ctl_mod-registered ctl_del-registered address channel
          send_buffer recv_buffer store p h).0 in
      let (c1, made, e1) =
        >>=-inverse (new_connection K ctl address channel send_buffer recv_buffer idle)
          (λ c. run_round K ctl (disconnect c) >>= run_round K ctl) c3 all in
      let (c2, e2, e3) = >>=-inverse (run_round K ctl (disconnect c1)) (run_round K ctl) c3 e1 in
      let (c, tried, (ready, waited)) = attempts-backoff fs in
      let began : Connecting K = record {
        connector = new_connector;
        client = idle;
        connect_called = true;
        queued = 0;
      } in
      let there : Connecting K = record {
        connector = established (connect pending c);
        client = c1;
        connect_called = true;
        queued = 0;
      } in
      let come =
        queued-connecting K ctl address channel send_buffer recv_buffer fs idle
        ∙ attempts-connecting K ctl address channel send_buffer recv_buffer fs began c c1 tried
            ready made in
      (
        record there { client = c3 },
        rw (start_queued K ctl address channel send_buffer recv_buffer fs answer idle ∙ come)
            (ended K ctl address channel send_buffer recv_buffer there c1 c2 c3 refl e2 e3),
        (
          connect-delays c ∙ waited,
          facts.0,
          facts.2,
          facts.3,
          connects-again K ctl address channel send_buffer recv_buffer again (connect pending c) c3
              true 0,
        ),
      )
