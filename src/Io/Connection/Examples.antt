-- ===== src/Io/Connection/Examples.antt =====
-- A connection over the descriptor 1. The kernel is the set of the descriptors that it knows.
use hulatang_io.Base.{
  ℕ, ◌≡◌, refl, List, [], ◌∷◌, ◌++◌, true, false, ◌==◌, none, some, take, arith, ◌>>=◌, ok,
  Succeeds,
}
use hulatang_io.Buffer.Valid.{contents}
use hulatang_io.Buffer.Queue.{Holds}
use hulatang_io.Io.FdTable.{channel_at}
use hulatang_io.Io.Channel.{Poller}
use hulatang_io.Io.TestKernel.{Known, ctl, known, modified, deleted, blank, blank-IsValid}
use hulatang_io.Io.Connection.{
  Connection, connecting, connected, disconnected, send, connect_established, connect_destroyed,
}
use hulatang_io.Io.Connection.Incoming
use hulatang_io.Io.Connection.Incoming.{Incoming, arrives, readable, uses}
use hulatang_io.Io.Connection.Arrival.{stream, run_incoming-stream}
use hulatang_io.Io.Connection.Outgoing.{
  Outgoing, Step, send_call, writable, not_yet, run, run-stream,
}
use hulatang_io.Io.Connection.Queued.{
  Queued, shutdown, send_anywhere, run_queued, run_tasks, run_queue, send_anywhere-run_queue,
}
use hulatang_io.Io.Connection.Life.{Registered, connect_established-connect_destroyed, send_lem}

abbrev fresh : Connection
fresh = record {
  channel = record {
    address = 4096;
    fd = 1;
    reading = false;
    writing = false;
    use_over = false;
    revent = 0;
  };
  state = connecting;
  tied = false;
  send_buffer = blank;
  recv_buffer = blank;
  notified = [];
}

abbrev poller : Poller Known
poller = record { table = none ∷ some 4096 ∷ []; kernel = λ i. i == 1 }

connect_established-connect_destroyed_example :
    Succeeds
      (connect_established Known ctl fresh poller >>= λ r. connect_destroyed Known ctl r.0 r.1)
      λ r.
        (r.0.state ≡ disconnected)
        × (r.0.tied ≡ false)
        × (r.0.notified ≡ connected ∷ disconnected ∷ [])
        × (channel_at r.1.table 1 ≡ none)
        × (known r.1.kernel 1 ≡ false)
connect_established-connect_destroyed_example =
    connect_established-connect_destroyed Known ctl known modified deleted fresh poller refl
      (refl, refl)

abbrev junk : ℕ → ℕ
junk i = 170

send-three_bytes : Succeeds (send Known ctl junk (5 ∷ 6 ∷ 7 ∷ []) 3 fresh poller) λ r.
    Holds (contents blank ++ take 3 (5 ∷ 6 ∷ 7 ∷ [])) r.0.send_buffer
    × (r.0.channel.writing ≡ true)
    × Registered Known ctl known modified deleted r.0.channel r.1
send-three_bytes =
    send_lem Known ctl known modified deleted junk (5 ∷ 6 ∷ 7 ∷ []) 3 fresh poller blank-IsValid
      (omega arith) (omega arith) (refl, refl)

abbrev waiting : Queued Known
waiting = record { conn = fresh; poller = poller; tasks = []; closes = 0 }

-- A call of `shutdown` between two rounds of the loop calls the close callback once.
shutdown-run_queue :
    run_queue Known ctl junk (λ address. []) (shutdown waiting) ≡ ok (record waiting { closes = 1 })
unfolding shutdown run_queue run_tasks run_queued
shutdown-run_queue = refl

send_anywhere-run_queue_example :
    Succeeds
      (send_anywhere Known ctl junk false (λ address. 1 ∷ 2 ∷ []) 900 2 waiting >>= λ q.
        run_queue Known ctl junk (λ address. 8 ∷ 9 ∷ []) q)
      λ q.
        Holds (contents blank ++ take 2 (8 ∷ 9 ∷ [])) q.conn.send_buffer
        × (q.conn.channel.writing ≡ true)
        × (q.tasks ≡ [])
send_anywhere-run_queue_example =
    send_anywhere-run_queue Known ctl known modified deleted junk (λ address. 1 ∷ 2 ∷ [])
      (λ address. 8 ∷ 9 ∷ []) 900 2 waiting refl blank-IsValid (omega arith) (omega arith)
      (refl, refl)

abbrev nothing_taken : Outgoing Known
nothing_taken = record { conn = fresh; poller = poller; taken = [] }

abbrev steps : List Step
steps = send_call (1 ∷ 2 ∷ 3 ∷ []) ∷ writable 2 ∷ not_yet ∷ send_call (4 ∷ []) ∷ writable 9 ∷ []

run-stream_example :
    Succeeds
      (run Known ctl junk steps nothing_taken)
      λ s'. s'.taken ++ contents s'.conn.send_buffer ≡ contents blank ++ 1 ∷ 2 ∷ 3 ∷ 4 ∷ []
run-stream_example =
    run-stream Known ctl known modified deleted junk steps 8 nothing_taken
      (record {
        valid = blank-IsValid;
        known = (refl, refl);
        large = omega arith;
        bounded = omega arith;
      })
      (omega arith)

abbrev nothing_used : Incoming
nothing_used = record { recv_buffer = blank; pending = 1 ∷ []; used = [] }

abbrev arrivals : List Incoming.Step
arrivals =
    readable 0
    ∷ arrives (2 ∷ 3 ∷ [])
    ∷ uses 5
    ∷ readable 9
    ∷ uses 1
    ∷ readable 9
    ∷ arrives (4 ∷ [])
    ∷ []

run_incoming-stream_example :
    Succeeds
      (Incoming.run junk arrivals nothing_used)
      λ s'. stream s' ≡ stream nothing_used ++ 2 ∷ 3 ∷ 4 ∷ []
run_incoming-stream_example =
    run_incoming-stream junk arrivals nothing_used
      (record { valid = blank-IsValid; large = omega arith; room = omega arith })
