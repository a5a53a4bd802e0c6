-- ===== src/Io/Wakeup/Examples.antt =====
-- Calls of other threads while a loop waits, with the count of an eventfd as the whole kernel.
use hulatang_io.Base.{ℕ, ◌+◌, ◌≡◌, refl, [], ◌∷◌, List, Succeeds, true, false}
use hulatang_io.Io.Status.{running}
use hulatang_io.Io.Timer.{Timer}
use hulatang_io.Io.Channel.{new_channel}
use hulatang_io.Io.Loop.{run_once, blocked, task_run, maximum_blocking_time, each}
use hulatang_io.Io.Wakeup.{
  EventFd, Shared, Call, queue_call, stop_call, linux_wakeup, epoll_wakeup, wait_for_events,
  wait_until, linux_handler, run_in_loop, queue_in_loop,
}
use hulatang_io.Io.Wakeup.Delay.{
  WaitsOut, ten_seconds, wait_for_events_lem, run_once-wait_for_events,
}

abbrev counter : EventFd ℕ
counter = record {
  count = λ k. k;
  eventfd_write = λ n k. k + n;
  eventfd_read = λ k. 0;
  write_adds = λ n k. refl;
  read_clears = λ k. refl;
}

abbrev quiet_loop : Shared ℕ
quiet_loop = record {
  loop = record { now = 0; timers = []; tasks = []; idle = []; handled = [] };
  status = running;
  processing = false;
  kernel = 0;
}

abbrev calls : List (ℕ × Call)
calls = (5, queue_call 7) ∷ (6, stop_call) ∷ (10000006, queue_call 8) ∷ []

-- A wakeup that adds 1 would end the wait at the first call.
abbrev adds_one : Shared ℕ → Shared ℕ
adds_one s = record s { kernel = s.kernel + 1 }

wait_until-adds_one : (wait_until ℕ adds_one counter 100 calls quiet_loop).0 ≡ 5
unfolding wait_until queue_in_loop
wait_until-adds_one = refl

-- The handler of the eventfd reads it where it can be read.
linux_handler-reads : linux_handler counter (record (new_channel 1 2) { revent = 1 }) 3 ≡ 0
unfolding linux_handler new_channel
linux_handler-reads = refl

run_in_loop-here : run_in_loop ℕ epoll_wakeup true 7 quiet_loop ≡ (7 ∷ [], quiet_loop)
unfolding run_in_loop
run_in_loop-here = refl

wait_for_events_lem_example :
    WaitsOut ℕ 100 calls quiet_loop (wait_for_events ℕ epoll_wakeup counter 100 calls quiet_loop)
    × WaitsOut ℕ 100 calls quiet_loop
        (wait_for_events ℕ (linux_wakeup counter) counter 100 calls quiet_loop)
wait_for_events_lem_example = wait_for_events_lem ℕ counter 100 calls quiet_loop refl

abbrev no_timers : Timer → List Timer
no_timers t = []

abbrev no_tasks_more : ℕ → List ℕ
no_tasks_more t = []

run_once-wait_for_events_example :
    ((ten_seconds ℕ counter 3 calls quiet_loop (record quiet_loop.loop { now = 3 })).0
      ≡ 3 + maximum_blocking_time)
    × Succeeds
        (run_once no_timers 0 1 3 4 10000003
          (λ l. (ten_seconds ℕ counter 3 calls quiet_loop l).1.loop)
          no_tasks_more
          quiet_loop.loop)
        λ r. r.0 ≡ blocked maximum_blocking_time ∷ each task_run (7 ∷ [])
run_once-wait_for_events_example =
    run_once-wait_for_events ℕ counter no_timers 0 0 3 4 10000003 no_tasks_more calls quiet_loop
      refl refl refl
