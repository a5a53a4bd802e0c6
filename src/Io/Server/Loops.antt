-- ===== src/Io/Server/Loops.antt =====
-- hulatang/io/TCPServer.cpp with several loops: `newConnection` and `removeConnection`, and the tasks that they leave
-- in the loop of the server, `base`, and in those of the connections.
use hulatang_io.Base.{
  ℕ, List, [], ◌∷◌, ◌++◌, Bool, false, not, ◌||◌, ◌==◌, if◌then◌else◌, Option, Outcome, ok, assert,
  ◌>>=◌, ◌>>◌,
}
use hulatang_io.Io.Channel.{Poller, Op, Event}
use hulatang_io.Io.Connection.{Connection, connect_established, connect_destroyed}

-- The lambdas that are given to `runInLoop`, each with its connection.
pub data Task : Type 0 where
  establish remove destroy : (key : ℕ) → Task

-- `keys` is those of the map; a connection is known by its key, the address of its peer address. `queues` is the tasks
-- that wait in each loop, in order.
pub record Loops (K : Type 0) : Type 0 where
  pub keys : List ℕ
  pub store : ℕ → Connection
  pub loop_of : ℕ → ℕ
  pub pollers : ℕ → Poller K
  pub queues : ℕ → List Task

-- A function with another value at one place.
abbrev pub at {ℓ} : {A : Type ℓ} → ℕ → A → (ℕ → A) → ℕ → A
at i a f j = if j == i then a else f j

unfoldable pub has_key : ℕ → List ℕ → Bool
has_key key [] = false
has_key key (k ∷ ks) = k == key || has_key key ks

unfoldable pub erase_key : ℕ → List ℕ → List ℕ
erase_key key [] = []
erase_key key (k ∷ ks) = let rest = erase_key key ks in if k == key then rest else k ∷ rest

unfoldable pub emplace_key : ℕ → List ℕ → List ℕ
emplace_key key ks = if has_key key ks then ks else key ∷ ks

-- `runInLoop` in the thread of the loop `here`
unfoldable pub run_in :
    {K : Type 0}
    → (loop here : ℕ) → Task
    → (Loops K → Outcome (Loops K))
    → Loops K
    → Outcome (Loops K)
run_in loop here task now s =
    if here == loop
    then now s
    else ok (record s { queues = at loop (s.queues loop ++ task ∷ []) s.queues })

module _ (K : Type 0) (ctl : Op → Event → K → Option K) (base : ℕ) where
  -- What a call of the connection leaves.
  abbrev pub changed : ℕ → Connection × Poller K → Loops K → Loops K
  changed key r s = record s {
    store = at key r.0 s.store;
    pollers = at (s.loop_of key) r.1 s.pollers;
  }

  unfoldable pub establish_connection : ℕ → Loops K → Outcome (Loops K)
  establish_connection key s = do
    r ← connect_established K ctl (s.store key) (s.pollers (s.loop_of key))
    ok (changed key r s)

  unfoldable pub destroy_connection : ℕ → Loops K → Outcome (Loops K)
  destroy_connection key s = do
    r ← connect_destroyed K ctl (s.store key) (s.pollers (s.loop_of key))
    ok (changed key r s)

  -- `newConnection`, in the thread of `base`: `loop` is that of the channel.
  unfoldable pub new_connection : (key loop : ℕ) → Connection → Loops K → Outcome (Loops K)
  new_connection key loop conn s = do
    assert (not (conn.channel.fd == 0))
    run_in loop base (establish key) (establish_connection key) (record s {
      keys = emplace_key key s.keys;
      store = at key conn s.store;
      loop_of = at key loop s.loop_of;
    })

  -- The lambda of `removeConnection`, in the thread of `base`.
  unfoldable pub remove_in_base : ℕ → Loops K → Outcome (Loops K)
  remove_in_base key s = do
    assert (has_key key s.keys)
    run_in (s.loop_of key) base (destroy key) (destroy_connection key)
        (record s { keys = erase_key key s.keys })

  -- `removeConnection`, in the thread of the loop `here`
  unfoldable pub remove_connection : (here key : ℕ) → Loops K → Outcome (Loops K)
  remove_connection here key s = run_in base here (remove key) (remove_in_base key) s

  unfoldable pub perform : Task → Loops K → Outcome (Loops K)
  perform (establish key) s = establish_connection key s
  perform (remove key) s = remove_in_base key s
  perform (destroy key) s = destroy_connection key s

  unfoldable pub perform_each : List Task → Loops K → Outcome (Loops K)
  perform_each [] s = ok s
  perform_each (t ∷ ts) s = do s' ← perform t s; perform_each ts s'

  -- A loop takes the tasks that wait in it, and runs them.
  unfoldable pub run_loop_tasks : ℕ → Loops K → Outcome (Loops K)
  run_loop_tasks loop s = perform_each (s.queues loop) (record s { queues = at loop [] s.queues })
