-- ===== src/Io/Thread/Stopping.antt =====
-- `stop` asks the loop to end and waits for the thread: whether it returns.
use hulatang_io.Io.Status.{Status, running, stopped}
use hulatang_io.Base.{ℕ, ◌≤◌, ◌≡◌, ◌≢◌, refl, List, [], ◌∷◌, Bool, true, false, ◌||◌, arith}
use hulatang_io.Io.Thread.{
  Worker, run_starting, run_running, testing, in_round, leaving, clearing, announcing_stop,
  finished, returned, polling, destroy_thread, calling, joining, joined, State, new_thread, work,
  own, Who, the_owner, the_worker, the_stopper, stop_inside, turn, interleave,
}
use hulatang_io.Io.Thread.Invariant.{IsSound, is_looping, is_over, has_asked, interleave-IsSound}

-- How many turns the worker needs to end once the loop is asked to.
abbrev remaining : Worker → ℕ
remaining in_round = 5
remaining testing = 4
remaining leaving = 3
remaining clearing = 2
remaining announcing_stop = 1
remaining _ = 0

-- The thread has called `run`, and `run` has not yet stored Running.
abbrev pub is_before : Worker → Bool
is_before run_starting = true
is_before run_running = true
is_before _ = false

record IsEnding (n : ℕ) (s : State) : Type 0 where
  asked : has_asked s.owner ≡ true
  told : s.loop_status ≢ running
  place : is_looping s.worker || is_over s.worker ≡ true
  near : remaining s.worker ≤ n

-- As long as no task stops the loop, the owner waits for a thread whose loop is not told to end, or will forget that it
-- was.
record IsLost (s : State) : Type 0 where
  joins : s.task_stopped ≡ false → s.owner ≡ joining
  place : s.task_stopped ≡ false → is_before s.worker || is_looping s.worker ≡ true
  untold : s.task_stopped ≡ false → is_looping s.worker ≡ true → s.loop_status ≡ running

turn-IsLost : (w : Who) (s : State) → IsLost s → IsLost (turn w s)
unfolding turn work own stop_inside
turn-IsLost the_owner s h = ground arith
turn-IsLost the_worker s h = ground arith
turn-IsLost the_stopper s h = ground arith

interleave-IsLost : (ws : List Who) (s : State) → IsLost s → IsLost (interleave ws s)
unfolding interleave
interleave-IsLost [] s h = h
interleave-IsLost (w ∷ ws) s h = interleave-IsLost ws (turn w s) (turn-IsLost w s h)

calls-IsLost :
    (s : State)
    → IsSound s
    → s.owner ≡ calling
    → is_before s.worker ≡ true
    → IsLost (turn the_owner s)
unfolding turn own
calls-IsLost s h e before = ground arith

-- Where the owner calls `loop_->stop()` before the store of Running in `run`, the stop is lost: in every order of turns
-- in which no task stops the loop, the owner waits for the thread, and the thread stays in `run`.
pub stop_lost :
    (before after : List Who)
    → (interleave before new_thread).owner ≡ calling
    → is_before (interleave before new_thread).worker ≡ true
    → (interleave after (turn the_owner (interleave before new_thread))).task_stopped ≡ false
    → let t = interleave after (turn the_owner (interleave before new_thread)) in
      (t.owner ≡ joining) × (is_before t.worker || is_looping t.worker ≡ true)
stop_lost before after e early free =
    let s = interleave before new_thread in
    let h =
      interleave-IsLost after (turn the_owner s)
        (calls-IsLost s (interleave-IsSound before) e early) in
    (h.joins free, h.place free)

ended_waits :
    (ws : List Who) (loop_status : Status) (loop told : Bool)
    → (interleave ws (record {
      owner = polling;
      worker = finished;
      status = stopped;
      loop_status = loop_status;
      loop = loop;
      task_stopped = told;
    })).owner
      ≡ polling
unfolding interleave turn own work stop_inside
ended_waits [] loop_status loop told = refl
ended_waits (the_owner ∷ ws) loop_status loop told = ended_waits ws loop_status loop told
ended_waits (the_worker ∷ ws) loop_status loop told = ended_waits ws loop_status loop told
ended_waits (the_stopper ∷ ws) loop_status loop told = ended_waits ws loop_status loop told

-- A thread whose loop has come to its end by itself: the destructor returns with the next turn, while a call of `stop`
-- waits in every order of turns.
pub destroy_thread-ended :
    (ws : List Who) (loop_status : Status) (loop told : Bool)
    → ((turn the_owner (
          destroy_thread (record {
            owner = returned;
            worker = finished;
            status = stopped;
            loop_status = loop_status;
            loop = loop;
            task_stopped = told;
          }))).owner
        ≡ joined)
      × ((interleave ws (
            turn the_owner (record {
              owner = returned;
              worker = finished;
              status = stopped;
              loop_status = loop_status;
              loop = loop;
              task_stopped = told;
            }))).owner
          ≡ polling)
unfolding destroy_thread turn own
destroy_thread-ended ws loop_status loop told = (refl, ended_waits ws loop_status loop told)
