-- ===== src/Io/Server.antt =====
-- hulatang/io/TCPServer.cpp: the connections of a server whose only loop is its own. The key of a
-- connection, the address of its peer address, is its identity.
pub mod Removal
pub mod Start
pub mod Loops
pub mod Lives
mod Examples
use hulatang_io.Base.{
  ℕ, List, [], ◌∷◌, Bool, true, false, not, ◌==◌, if◌then◌else◌, Option, none, some, Outcome, ok,
  aborted, assert, ◌>>=◌, ◌>>◌,
}
use hulatang_io.Buffer.{Buffer}
use hulatang_io.Io.Channel.{Channel, Poller, Op, Event}
use hulatang_io.Io.Connection
use hulatang_io.Io.Connection.{Connection, connect_established, connect_destroyed}

pub record Server (K : Type 0) : Type 0 where
  pub connections : List (ℕ × Connection)
  pub poller : Poller K

unfoldable pub find_connection : ℕ → List (ℕ × Connection) → Option Connection
find_connection key [] = none
find_connection key ((k, conn) ∷ cs) =
    let rest = find_connection key cs in if k == key then some conn else rest

-- `map.emplace`, which changes nothing where the key is there
unfoldable pub emplace : ℕ → Connection → List (ℕ × Connection) → List (ℕ × Connection)
emplace key conn cs = elim (find_connection key cs) [ none ↦ (key, conn) ∷ cs | some old ↦ cs ]

-- `map.erase`
unfoldable pub erase : ℕ → List (ℕ × Connection) → List (ℕ × Connection)
erase key [] = []
erase key ((k, conn) ∷ cs) = let rest = erase key cs in if k == key then rest else (k, conn) ∷ rest

module _ (K : Type 0) (ctl : Op → Event → K → Option K) where
  -- `newConnection`: the two buffers are those that a connection begins with.
  unfoldable pub new_connection : ℕ → Channel → Buffer → Buffer → Server K → Outcome (Server K)
  new_connection key channel send_buffer recv_buffer s = do
    assert (not (channel.fd == 0))
    r ←
        connect_established K ctl (Connection.new_connection channel send_buffer recv_buffer)
          s.poller
    ok (record { connections = emplace key r.0 s.connections; poller = r.1 })

  -- `removeConnection`: `erase` counts what it takes away, and a count of 0 fails the assertion.
  unfoldable pub remove_connection : ℕ → Server K → Outcome (Server K)
  remove_connection key s = elim (find_connection key s.connections) [
    | none ↦ aborted
    | some conn ↦ connect_destroyed K ctl conn s.poller >>= λ r.
        ok (record { connections = erase key s.connections; poller = r.1 })
  ]
