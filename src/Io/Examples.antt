-- ===== src/Io/Examples.antt =====
-- Connectors, pools, tables of descriptors and lists of operations at fixed values.
use hulatang_io.Base.{ℕ, ◌+◌, ◌≡◌, ◌≢◌, refl, [], ◌∷◌, none, some, Succeeds}
use hulatang_io.Io.Connector.{
  timed_out, connection_refused, at_once, later, disconnected, attempts, new_connector,
}
use hulatang_io.Io.Connector.Backoff.{delays, attempts-backoff}
use hulatang_io.Io.Status.{running}
use hulatang_io.Io.Pool.{Pool}
use hulatang_io.Io.Proactor.{Over, read_type, write_type}
use hulatang_io.Io.FdTable.{Table, add, cancel, channel_at, Added, cancel-add}

attempts-three_failures :
    Succeeds
      (attempts (at_once timed_out ∷ later 110 ∷ at_once connection_refused ∷ []) new_connector)
      λ c. (c.state ≡ disconnected) × (delays c.requests ≡ 500 ∷ 1000 ∷ 2000 ∷ [])
attempts-three_failures =
    attempts-backoff (at_once timed_out ∷ later 110 ∷ at_once connection_refused ∷ [])

-- the loop of the thread `i`
abbrev loop_of : ℕ → ℕ
loop_of i = 100 + i

abbrev three : Pool
three = record {
  loops = 100 ∷ 101 ∷ 102 ∷ [];
  threads = 101 ∷ 102 ∷ [];
  base_loop = 100;
  num_threads = 3;
  next = 0;
  status = running;
}

abbrev reading : Over
reading = record { address = 4096; type = read_type }

abbrev writing : Over
writing = record { address = 8192; type = write_type }

abbrev two : Table
two = some 4096 ∷ none ∷ []

cancel_then_add : Succeeds (cancel 0 two) λ t'.
    (channel_at t' 0 ≡ none)
    × ((j : ℕ) → 0 ≢ j → channel_at t' j ≡ channel_at two j)
    × Succeeds (add 0 8192 t') (Added 0 8192 t')
cancel_then_add = cancel-add 0 4096 8192 two refl
