-- ===== src/Io/Client/Examples.antt =====
-- A client that connects over the descriptor 1.
use hulatang_io.Base.{
  ℕ, ◌≡◌, refl, [], ◌∷◌, true, false, ◌==◌, none, some, aborted, ◌>>=◌, Succeeds,
}
use hulatang_io.Io.FdTable.{channel_at}
use hulatang_io.Io.Channel.{Channel, Poller}
use hulatang_io.Io.TestKernel.{Known, ctl, known, modified, deleted, blank}
use hulatang_io.Io.Connection.{Connection, connecting}
use hulatang_io.Io.Client.{Client, new_connection, disconnect, run_round}
use hulatang_io.Io.Connector.{pending, at_once, later, timed_out}
use hulatang_io.Io.Connector.Backoff.{delays, backoff}
use hulatang_io.Io.Client.Connecting
use hulatang_io.Io.Client.Connecting.{connects, queued_start, disconnects, runs_tasks, new_client}
use hulatang_io.Io.Client.Attempts.{connects-disconnects}
use hulatang_io.Io.Client.Closing.{disconnect_lem}

abbrev made : Channel
made = record {
  address = 4096;
  fd = 1;
  reading = false;
  writing = true;
  use_over = false;
  revent = 0;
}

abbrev poller : Poller Known
poller = record { table = none ∷ some 4096 ∷ []; kernel = λ i. i == 1 }

-- a store with nothing of interest
abbrev store : ℕ → Connection
store address = record {
  channel = made;
  state = connecting;
  tied = false;
  send_buffer = blank;
  recv_buffer = blank;
  notified = [];
}

abbrev idle : Client Known
idle = record { connection = none; store = store; tasks = []; poller = poller }

disconnect-twice :
    Succeeds
      (new_connection Known ctl 64 made blank blank idle >>= λ c.
        run_round Known ctl (disconnect c) >>= run_round Known ctl)
      (λ c.
        (c.connection ≡ none)
        × (c.tasks ≡ [])
        × (channel_at c.poller.table 1 ≡ none)
        × (known c.poller.kernel 1 ≡ false))
    × (new_connection Known ctl 64 made blank blank idle
          >>= (λ c. run_round Known ctl (disconnect (disconnect c)))
        ≡ aborted)
disconnect-twice =
    disconnect_lem Known ctl known modified deleted 64 made blank blank store poller (refl, refl)

-- Two attempts fail, one at once and one later.
connects-disconnects_example :
    Succeeds
      (Connecting.run Known ctl 64 made blank blank
          (connects false pending
            ∷ Connecting.connecting queued_start (at_once timed_out ∷ later 110 ∷ []))
          (new_client idle)
        >>= Connecting.run Known ctl 64 made blank blank
            (disconnects ∷ runs_tasks ∷ runs_tasks ∷ []))
      λ s.
        (delays s.connector.requests ≡ backoff 0 2)
        × (s.client.connection ≡ none)
        × (channel_at s.client.poller.table 1 ≡ none)
        × (known s.client.poller.kernel 1 ≡ false)
        × (Connecting.step Known ctl 64 made blank blank (connects true pending) s ≡ aborted)
connects-disconnects_example =
    connects-disconnects Known ctl known modified deleted (at_once timed_out ∷ later 110 ∷ [])
      pending pending 64 made blank blank store poller (refl, refl)
