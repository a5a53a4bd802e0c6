-- ===== src/Io/Thread/Invariant.antt =====
-- What holds of the two threads under every order of their turns.
use hulatang_io.Io.Status.{running}
use hulatang_io.Base.{◌≡◌, ◌≢◌, refl, List, [], ◌∷◌, Bool, true, false, ◌||◌, arith}
use hulatang_io.Io.Thread.{
  Worker, unborn, building, announcing_start, initialising, publishing, announcing_run,
  run_starting, run_running, testing, in_round, leaving, clearing, announcing_stop, finished, Owner,
  outside, waiting, returned, polling, storing, calling, joining, joined, crashed, State,
  new_thread, work, own, Who, the_owner, the_worker, the_stopper, stop_inside, turn, interleave,
}

-- `loop_` points to the loop.
abbrev pub has_loop : Worker → Bool
has_loop announcing_run = true
has_loop run_starting = true
has_loop run_running = true
has_loop testing = true
has_loop in_round = true
has_loop leaving = true
has_loop clearing = true
has_loop _ = false

-- The status of the thread is Running, or was.
abbrev pub is_live : Worker → Bool
is_live run_starting = true
is_live run_running = true
is_live testing = true
is_live in_round = true
is_live _ = false

-- The loop has ended.
abbrev pub is_over : Worker → Bool
is_over leaving = true
is_over clearing = true
is_over announcing_stop = true
is_over finished = true
is_over _ = false

abbrev pub is_looping : Worker → Bool
is_looping testing = true
is_looping in_round = true
is_looping _ = false

-- `stop` has read Running and not yet called the loop.
abbrev pub is_armed : Owner → Bool
is_armed storing = true
is_armed calling = true
is_armed _ = false

-- `stop` has stored Stopping.
abbrev pub has_stored : Owner → Bool
has_stored calling = true
has_stored joining = true
has_stored joined = true
has_stored _ = false

-- `stop` has called the loop.
abbrev pub has_asked : Owner → Bool
has_asked joining = true
has_asked joined = true
has_asked _ = false

pub record IsSound (s : State) : Type 0 where
  pub pointer : s.loop ≡ has_loop s.worker
  pub announced : s.status ≡ running → is_live s.worker || is_over s.worker ≡ true
  pub armed : is_armed s.owner ≡ true → is_live s.worker || is_over s.worker ≡ true
  pub still : is_armed s.owner ≡ true → s.task_stopped ≡ false → is_live s.worker ≡ true
  pub stored : has_stored s.owner ≡ true → s.status ≢ running
  pub settled : has_stored s.owner ≡ true → is_live s.worker || is_over s.worker ≡ true
  pub kept :
      is_looping s.worker ≡ true
      → has_asked s.owner ≡ false
      → s.task_stopped ≡ false
      → s.loop_status ≡ running
  pub asked : is_over s.worker ≡ true → has_asked s.owner || s.task_stopped ≡ true
  pub told : is_looping s.worker ≡ true → s.task_stopped ≡ true → s.loop_status ≢ running
  pub late : s.task_stopped ≡ true → is_looping s.worker || is_over s.worker ≡ true
  pub born : s.owner ≢ outside → s.worker ≢ unborn
  pub unborn_outside : s.owner ≡ outside → s.worker ≡ unborn
  pub safe : s.owner ≡ crashed → s.task_stopped ≡ true

work-IsSound : (w : Worker) (s : State) → s.worker ≡ w → IsSound s → IsSound (work w s)
unfolding work
work-IsSound unborn s e h = h
work-IsSound building s e h = ground arith
work-IsSound announcing_start s e h = ground arith
work-IsSound initialising s e h = ground arith
work-IsSound publishing s e h = ground arith
work-IsSound announcing_run s e h = ground arith
work-IsSound run_starting s e h = ground arith
work-IsSound run_running s e h = ground arith
work-IsSound testing s e h = ground arith
work-IsSound in_round s e h = ground arith
work-IsSound leaving s e h = ground arith
work-IsSound clearing s e h = ground arith
work-IsSound announcing_stop s e h = ground arith
work-IsSound finished s e h = h

own-IsSound : (o : Owner) (s : State) → s.owner ≡ o → IsSound s → IsSound (own o s)
unfolding own
own-IsSound outside s e h = ground arith
own-IsSound waiting s e h = ground arith
own-IsSound returned s e h = ground arith
own-IsSound polling s e h = ground arith
own-IsSound storing s e h = ground arith
own-IsSound calling s e h = ground arith
own-IsSound joining s e h = ground arith
own-IsSound joined s e h = h
own-IsSound crashed s e h = h

pub stop_inside-IsSound : (s : State) → IsSound s → IsSound (stop_inside s.worker s)
unfolding stop_inside
stop_inside-IsSound s h = ground arith

pub stop_inside-worker : (s : State) → (stop_inside s.worker s).worker ≡ s.worker
unfolding stop_inside
stop_inside-worker s = ground arith

pub turn-IsSound : (w : Who) (s : State) → IsSound s → IsSound (turn w s)
unfolding turn
turn-IsSound the_owner s h = own-IsSound s.owner s refl h
turn-IsSound the_worker s h = work-IsSound s.worker s refl h
turn-IsSound the_stopper s h =
    work-IsSound s.worker (stop_inside s.worker s) (stop_inside-worker s) (stop_inside-IsSound s h)

new_thread-IsSound : IsSound new_thread
new_thread-IsSound = ground arith

interleave-IsSound_from : (ws : List Who) (s : State) → IsSound s → IsSound (interleave ws s)
unfolding interleave
interleave-IsSound_from [] s h = h
interleave-IsSound_from (w ∷ ws) s h = interleave-IsSound_from ws (turn w s) (turn-IsSound w s h)

-- In whatever order the two threads take their turns, with a callback and tasks that stop the loop or do not: `loop_`
-- points to the loop exactly from its publication to the end of `run`. As long as no task has stopped the loop: `stop`
-- has never found `loop_` null, the loop has not ended before `stop` has called it, and the thread still is in `run`
-- where `stop` is about to call it. A loop that
-- a task has stopped finds so at its next test.
pub interleave-IsSound : (ws : List Who) → IsSound (interleave ws new_thread)
interleave-IsSound ws = interleave-IsSound_from ws new_thread new_thread-IsSound
