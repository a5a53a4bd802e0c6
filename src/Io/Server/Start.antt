-- ===== src/Io/Server/Start.antt =====
-- `start` and `setThreadNum` of hulatang/io/TCPServer.cpp: the pool of the server, and its acceptor.
use hulatang_io.Base.{
  ℕ, ◌-◌, ◌<◌, ◌≡◌, List, [], ◌∷◌, Option, length, Outcome, ok, ◌>>=◌, lt→ltb, Succeeds, arith,
}
use hulatang_io.File.{Answer, File}
use hulatang_io.Io.Status.{running}
use hulatang_io.Io.Channel.{Channel, Poller, Op, Event}
use hulatang_io.Io.Pool.{Pool, new_pool, set_thread_num, started_loops, start, round, somes}
use hulatang_io.Io.Acceptor.{Acceptor, acceptor_listen, accept_each}
use hulatang_io.Io.Acceptor.Rounds.{loops_of, fds_of, accept_each_lem}

unfoldable pub set_server_threads : ℕ → Acceptor → Acceptor
set_server_threads n a = record a { pool = set_thread_num n a.pool }

-- The task that `start` queues; `c` is the channel of the listening socket `f`.
unfoldable pub start_server :
    (K : Type 0)
    → (Op → Event → K → Option K)
    → (ℕ → ℕ)
    → Answer
    → File
    → Channel
    → Poller K
    → Acceptor
    → Outcome (Acceptor × Channel × Poller K)
start_server K ctl start_loop answer f c p a = do
  pool ← start start_loop a.pool
  r ← acceptor_listen K ctl answer f c p
  ok (record a { pool = pool }, r.0, r.1)

-- A server with a positive number of threads that is started, where the socket can be listened on, hands the
-- connections that it then accepts out in order, each once: the first to the loop behind the base loop, and so on in
-- turn over the base loop and those of the new threads.
pub start_server-accept_each :
    (K : Type 0) (ctl : Op → Event → K → Option K) (start_loop : ℕ → ℕ) (base n : ℕ)
    (answer : Answer) (f : File) (c : Channel) (p : Poller K) (r : Channel × Poller K)
    (a : Acceptor) (ns : List ℕ)
    → 0 < n
    → a.pool ≡ new_pool base
    → a.handed ≡ []
    → acceptor_listen K ctl answer f c p ≡ ok r
    → Succeeds
        (start_server K ctl start_loop answer f c p (set_server_threads n a) >>= λ s.
          accept_each ns s.0)
        λ a'.
          (somes (loops_of a'.handed)
            ≡ round (base ∷ started_loops start_loop 1 (n - 1)) 0 (length ns))
          × (fds_of a'.handed ≡ ns)
unfolding start_server set_server_threads start set_thread_num new_pool
start_server-accept_each K ctl start_loop base n answer f c p r a ns h e none_yet listens =
    let pool : Pool = record {
      loops = base ∷ started_loops start_loop 1 (n - 1);
      threads = started_loops start_loop 1 (n - 1);
      base_loop = base;
      num_threads = n;
      next = 0;
      status = running;
    } in
    let s = accept_each_lem ns (record a { pool = pool }) (omega arith) none_yet in
    (s.0, rw (e, lt→ltb 0 n h, listens) s.1, s.2)
