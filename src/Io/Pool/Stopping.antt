-- ===== src/Io/Pool/Stopping.antt =====
-- hulatang/io/EventLoopThreadPool.cpp: a pool is stopped, asked and started again.
use hulatang_io.Base.{
  ℕ, ◌-◌, ◌<◌, ◌≡◌, refl, List, [], ◌∷◌, ◌++◌, Bool, true, false, Outcome, ok, diverged, ◌>>=◌,
  lt→ltb, Succeeds,
}
use hulatang_io.Io.Status.{starting, running, stopped}
use hulatang_io.Io.Pool.{Pool, started_loops, start, set_thread_num, new_pool}

-- `stop`: the threads that are stopped, in order; the loops stay.
unfoldable pub stop_pool : Pool → List ℕ × Pool
stop_pool p = (p.threads, record p { status = stopped })

-- the destructor, which waits while the pool is starting
unfoldable pub destroy_pool : Pool → Outcome (List ℕ)
destroy_pool p = elim p.status [ starting ↦ diverged | running ↦ ok (stop_pool p).0 | _ ↦ ok [] ]

unfoldable pub started : Pool → Bool
started p = elim p.status [ running ↦ true | _ ↦ false ]

unfoldable pub get_all_loops : Pool → List ℕ
get_all_loops p = p.loops

-- A pool that is started, stopped and started again has the loops of both times: those of the threads that have
-- ended stand before those that run, and it gives them to connections.
pub start-stop_pool-start :
    (first second : ℕ → ℕ) (base n : ℕ)
    → 0 < n
    → Succeeds
        (start first (set_thread_num n (new_pool base)) >>= λ p. start second (stop_pool p).1)
        λ p.
          (get_all_loops p
            ≡ (base ∷ started_loops first 1 (n - 1)) ++ base ∷ started_loops second 1 (n - 1))
          × (p.threads ≡ started_loops second 1 (n - 1))
          × (started p ≡ true)
unfolding start set_thread_num new_pool stop_pool get_all_loops started
start-stop_pool-start first second base n h = (
  record {
    loops = (base ∷ started_loops first 1 (n - 1)) ++ base ∷ started_loops second 1 (n - 1);
    threads = started_loops second 1 (n - 1);
    base_loop = base;
    num_threads = n;
    next = 0;
    status = running;
  },
  rw (lt→ltb 0 n h, lt→ltb 0 n h) refl,
  (refl, refl, refl),
)
