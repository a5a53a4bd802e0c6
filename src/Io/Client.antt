-- ===== src/Io/Client.antt =====
-- hulatang/io/TCPClient.cpp: the one connection of a client, and what its loop has still to do for it.
-- A connection is known by its address.
pub mod Closing
pub mod Connecting
pub mod Attempts
mod Examples
use hulatang_io.Base.{
  ℕ, List, [], ◌∷◌, ◌++◌, Bool, true, false, ◌==◌, if◌then◌else◌, Option, none, some, Outcome, ok,
  assert, ◌>>=◌, ◌>>◌,
}
use hulatang_io.Buffer.{Buffer}
use hulatang_io.Io.Channel.{Channel, Poller, Op, Event}
use hulatang_io.Io.Connection
use hulatang_io.Io.Connection.{Connection, connect_established, connect_destroyed}

-- A task in the queue of the loop: the close callback, or the end of a connection.
pub data Task : Type 0 where
  close destroy : ℕ → Task

-- `connection` is a pointer, and `store` gives the connection at an address.
pub record Client (K : Type 0) : Type 0 where
  pub connection : Option ℕ
  pub store : ℕ → Connection
  pub tasks : List Task
  pub poller : Poller K

abbrev is_same : ℕ → Option ℕ → Bool
is_same address none = false
is_same address (some a) = a == address

-- The store with `conn` at an address.
abbrev stored : ℕ → Connection → (ℕ → Connection) → ℕ → Connection
stored address conn store a = if a == address then conn else store a

-- `disconnect`, with `TCPConnection::shutdown`
unfoldable pub disconnect : {K : Type 0} → Client K → Client K
disconnect c = elim c.connection [
  | none ↦ c
  | some address ↦ record c { tasks = c.tasks ++ close address ∷ [] }
]

unfoldable pub remove_connection : {K : Type 0} → ℕ → Client K → Outcome (Client K)
remove_connection address c = do
  assert (is_same address c.connection)
  ok (record c { connection = none; tasks = c.tasks ++ destroy address ∷ [] })

module _ (K : Type 0) (ctl : Op → Event → K → Option K) where
  unfoldable pub new_connection : ℕ → Channel → Buffer → Buffer → Client K → Outcome (Client K)
  new_connection address channel send_buffer recv_buffer c = do
    r ←
        connect_established K ctl (Connection.new_connection channel send_buffer recv_buffer)
          c.poller
    ok (record c { connection = some address; store = stored address r.0 c.store; poller = r.1 })

  unfoldable pub run_task : Task → Client K → Outcome (Client K)
  run_task (close address) c = remove_connection address c
  run_task (destroy address) c = do
    r ← connect_destroyed K ctl (c.store address) c.poller
    ok (record c { store = stored address r.0 c.store; poller = r.1 })

  unfoldable pub run_all : List Task → Client K → Outcome (Client K)
  run_all [] c = ok c
  run_all (t ∷ ts) c = do c' ← run_task t c; run_all ts c'

  -- One round of the loop: the tasks that wait, not those that they queue.
  unfoldable pub run_round : Client K → Outcome (Client K)
  run_round c = run_all c.tasks (record c { tasks = [] })
