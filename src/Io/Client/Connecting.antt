-- ===== src/Io/Client/Connecting.antt =====
-- hulatang/io/TCPClient.cpp with Connector.cpp: how a client comes to its connection and gives it up.
use hulatang_io.Base.{ℕ, zero, suc, List, [], ◌∷◌, Bool, true, false, Option, Outcome, ok, ◌>>=◌}
use hulatang_io.Buffer.{Buffer}
use hulatang_io.Io.Channel.{Channel, Op, Event}
use hulatang_io.Io.Connector.{
  Connector, Answer, Failure, at_once, later, pending, refused, start_in_loop, handle_write,
  established, new_connector,
}
use hulatang_io.Io.Client.{Client, disconnect, new_connection, run_round}

-- `connect_called` is the field `connect_`, and `queued` how many calls of `startInLoop` wait in the loop, by `start`.
pub record Connecting (K : Type 0) : Type 0 where
  pub connector : Connector
  pub client : Client K
  pub connect_called : Bool
  pub queued : ℕ

-- the constructor, with its new connector
abbrev pub new_client : {K : Type 0} → Client K → Connecting K
new_client client = record {
  connector = new_connector;
  client = client;
  connect_called = false;
  queued = 0;
}

-- `connect` is called, in the thread of the loop or not; the loop runs a `startInLoop` that was queued, or that the
-- timer of a retry makes; the socket becomes writable, with this SO_ERROR; `stop` or `disconnect` is called; the loop
-- runs the tasks of the connection.
pub data Step : Type 0 where
  connects : (in_loop : Bool) → Answer → Step
  queued_start timer_start : Answer → Step
  becomes_writable : ℕ → Step
  stops disconnects runs_tasks : Step

-- `Connector::start`
unfoldable pub start : {K : Type 0} → Bool → Answer → Connecting K → Outcome (Connecting K)
start true answer s = do c ← start_in_loop answer s.connector; ok (record s { connector = c })
start false answer s = ok (record s { queued = suc s.queued })

-- `Connector::stop`
abbrev stop_connector : Connector → Connector
stop_connector c = c

-- A connection over this channel is made at the address.
module _ (K : Type 0) (ctl : Op → Event → K → Option K) (address : ℕ) (channel : Channel)
    (send_buffer recv_buffer : Buffer) where
  -- `UnixConnectReactor::handleWrite`: without an error `Connector::connected` hands the channel to
  -- `TCPClient::newConnection`.
  unfoldable pub writable : ℕ → Connecting K → Outcome (Connecting K)
  writable zero s = do
    client ← new_connection K ctl address channel send_buffer recv_buffer s.client
    ok (record s { connector = established s.connector; client = client })
  writable (suc error) s = ok (record s { connector = handle_write (suc error) s.connector })

  unfoldable pub run_queued_start : ℕ → Answer → Connecting K → Outcome (Connecting K)
  run_queued_start zero answer s = ok s
  run_queued_start (suc n) answer s = start true answer (record s { queued = n })

  unfoldable pub step : Step → Connecting K → Outcome (Connecting K)
  step (connects in_loop answer) s = start in_loop answer (record s { connect_called = true })
  step (queued_start answer) s = run_queued_start s.queued answer s
  step (timer_start answer) s = start true answer s
  step (becomes_writable error) s = writable error s
  step stops s = ok (record s { connector = stop_connector s.connector })
  step disconnects s = ok (record s { client = disconnect s.client })
  step runs_tasks s = do client ← run_round K ctl s.client; ok (record s { client = client })

  unfoldable pub run : List Step → Connecting K → Outcome (Connecting K)
  run [] s = ok s
  run (t ∷ ts) s = do s' ← step t s; run ts s'

-- Attempts that fail, each after the first by the timer of a retry, and one that succeeds.
abbrev pub connecting : (Answer → Step) → List Failure → List Step
connecting first [] = first pending ∷ becomes_writable 0 ∷ []
connecting first (at_once e ∷ fs) = first (refused e) ∷ connecting timer_start fs
connecting first (later n ∷ fs) =
    first pending ∷ becomes_writable (suc n) ∷ connecting timer_start fs
