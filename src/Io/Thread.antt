-- ===== src/Io/Thread.antt =====
-- hulatang/io/EventLoopThread.cpp, with `run` and `stop` of EventLoop.cpp: the thread of a loop, and the
-- thread that starts and stops it, each one access to what they share at a time. The callback of the thread and the
-- tasks of its loop may call `stop` of the loop. In that call from the owner the store and the wakeup, which does
-- nothing on Linux, are one turn.
pub mod Invariant
pub mod Starting
pub mod Stopping
mod Examples
use hulatang_io.Io.Status.{
  Status, null, initializing, initialized, starting, running, stopping, stopped,
}
use hulatang_io.Base.{ℕ, zero, suc, List, [], ◌∷◌, Bool, true, false, if◌then◌else◌}

-- Where `threadFunc` stands: each position is before the access that it names. `testing` is the
-- condition of the loop in `run`, and `in_round` its body.
pub data Worker : Type 0 where
  unborn building announcing_start initialising publishing announcing_run : Worker
  run_starting run_running testing in_round : Worker
  leaving clearing announcing_stop finished : Worker

-- Where the owner stands: `waiting` in `startLoop`, and from `polling` on in `stop`. It is `crashed`
-- where `loop_` was null in `loop_->stop()`.
pub data Owner : Type 0 where
  outside waiting returned polling storing calling joining joined crashed : Owner

-- `status` and `loop` are those of the EventLoopThread, `loop` telling whether `loop_` is not null, and
-- `loop_status` is that of the EventLoop. `task_stopped` is no field: it says whether a task has stopped the loop.
pub record State : Type 0 where
  pub owner : Owner
  pub worker : Worker
  pub status : Status
  pub loop_status : Status
  pub loop : Bool
  pub task_stopped : Bool

-- the constructor of EventLoopThread
abbrev pub new_thread : State
new_thread = record {
  owner = outside;
  worker = unborn;
  status = stopped;
  loop_status = null;
  loop = false;
  task_stopped = false;
}

-- `status == EnumEventLoopStatus::Running`
abbrev pub is_running : Status → Bool
is_running null = false
is_running initializing = false
is_running initialized = false
is_running starting = false
is_running running = true
is_running stopping = false
is_running stopped = false

-- `EventLoop::stop` in the thread of the loop, called by the callback or by a task of a round, where the thread is at
-- one of these.
unfoldable pub stop_inside : Worker → State → State
stop_inside initialising s = record s { loop_status = stopping }
stop_inside in_round s = record s { loop_status = stopping; task_stopped = true }
stop_inside _ s = s

-- `threadFunc`, and `run` of the loop that is its own. A round returns.
unfoldable pub work : Worker → State → State
work unborn s = s
work building s = record s { loop_status = initialized; worker = announcing_start }
work announcing_start s = record s { status = starting; worker = initialising }
work initialising s = record s { worker = publishing }
work publishing s = record s { loop = true; worker = announcing_run }
work announcing_run s = record s { status = running; worker = run_starting }
work run_starting s = record s { loop_status = starting; worker = run_running }
work run_running s = record s { loop_status = running; worker = testing }
work testing s = record s { worker = if is_running s.loop_status then in_round else leaving }
work in_round s = record s { worker = testing }
work leaving s = record s { loop_status = stopped; worker = clearing }
work clearing s = record s { loop = false; worker = announcing_stop }
work announcing_stop s = record s { status = stopped; worker = finished }
work finished s = s

abbrev is_finished : Worker → Bool
is_finished finished = true
is_finished _ = false

-- `startLoop`, and then `stop`: a turn in which the owner waits changes nothing.
unfoldable pub own : Owner → State → State
own outside s = record s { owner = waiting; worker = building }
own waiting s = record s { owner = if s.loop then returned else waiting }
own returned s = record s { owner = polling }
own polling s = record s { owner = if is_running s.status then storing else polling }
own storing s = record s { status = stopping; owner = calling }
own calling s =
    if s.loop
    then record s { loop_status = stopping; owner = joining }
    else record s { owner = crashed }
own joining s = record s { owner = if is_finished s.worker then joined else joining }
own joined s = s
own crashed s = s

abbrev is_stopped : Status → Bool
is_stopped stopped = true
is_stopped _ = false

-- The destructor of `thread_`, which joins a thread that there is.
abbrev join_thread : Worker → State → State
join_thread unborn s = s
join_thread _ s = record s { owner = joining }

-- `~EventLoopThread`: the turns of the owner that follow are those of `stop`, or of the joining.
unfoldable pub destroy_thread : State → State
destroy_thread s =
    if is_stopped s.status then join_thread s.worker s else record s { owner = polling }

-- `the_stopper` is the thread in a turn in which the callback or a task stops the loop.
pub data Who : Type 0 where
  the_owner the_worker the_stopper : Who

unfoldable pub turn : Who → State → State
turn the_owner s = own s.owner s
turn the_worker s = work s.worker s
turn the_stopper s = work s.worker (stop_inside s.worker s)

-- The turns of the two threads in any order.
unfoldable pub interleave : List Who → State → State
interleave [] s = s
interleave (w ∷ ws) s = interleave ws (turn w s)

-- How many turns the worker has.
abbrev pub worker_turns : List Who → ℕ
worker_turns [] = 0
worker_turns (the_owner ∷ ws) = worker_turns ws
worker_turns (the_worker ∷ ws) = suc (worker_turns ws)
worker_turns (the_stopper ∷ ws) = suc (worker_turns ws)
