-- ===== src/Io/Loop.antt =====
-- hulatang/io/EventLoop.cpp: how long a loop waits, and what it does in one round. The readings of
-- the clock are arguments, and so is what the callbacks of the descriptors do.
pub mod Wait
pub mod Life
pub mod Run
mod Examples
use hulatang_io.Base.{
  ℕ, ◌+◌, List, [], ◌∷◌, ◌++◌, Bool, true, false, ◌&&◌, if◌then◌else◌, ltb, ◌==◌, Outcome, ok,
  ◌>>=◌, ◌>>◌,
}
use hulatang_io.Io.Timer.{
  Timer, one_shot, repeating, add, process, next_trigger_time, is_idle, ℤ, pos, negsuc,
}

-- 10000 milliseconds
abbrev pub maximum_blocking_time : ℕ
maximum_blocking_time = 10000000

-- `tasks` and `idle` are the tasks of the CycleEventManager and of the IdleEventManager, and
-- `handled` is the timers that were handled so far, in order.
pub record Loop : Type 0 where
  pub now : ℕ
  pub timers : List Timer
  pub tasks : List ℕ
  pub idle : List ℕ
  pub handled : List Timer

abbrev pub no_tasks : List ℕ → Bool
no_tasks [] = true
no_tasks (t ∷ ts) = false

unfoldable pub loop_is_idle : Loop → Bool
loop_is_idle l = is_idle l.timers && no_tasks l.tasks

-- `runAfter` and `runEvery` in the thread of the loop
unfoldable pub run_after : ℕ → ℕ → Loop → Loop
run_after time address l = record l {
  timers = add (record { address = address; timeout = time + l.now; kind = one_shot }) l.timers;
}

unfoldable pub run_every : ℕ → ℕ → ℕ → Loop → Loop
run_every interval repeat address l = record l {
  timers =
      add
        (record { address = address; timeout = l.now + interval; kind = repeating interval repeat })
        l.timers;
}

-- `if (next_timeout < 1ms) next_timeout = 1ms; return min(MaximumBlockingTime, next_timeout);`
abbrev pub bounded : ℤ → ℕ
bounded (negsuc n) = 1000
bounded (pos n) =
    let at_least = if ltb n 1000 then 1000 else n in
    if ltb maximum_blocking_time at_least then maximum_blocking_time else at_least

-- `calculationBlocktime` behind the late timers
unfoldable pub wait_for : ℤ → Loop → ℕ
wait_for next_timeout l =
    if no_tasks l.tasks
    then if loop_is_idle l then maximum_blocking_time else bounded next_timeout
    else 0

-- What the loop does in one round besides its timers; `blocked` is the time that `processIo` is given.
pub data Event : Type 0 where
  blocked : ℕ → Event
  task_run idle_run : ℕ → Event

abbrev pub each : (ℕ → Event) → List ℕ → List Event
each f [] = []
each f (x ∷ xs) = f x ∷ each f xs

-- What the tasks create, in order.
abbrev pub created_by : (ℕ → List ℕ) → List ℕ → List ℕ
created_by spawns [] = []
created_by spawns (t ∷ ts) = spawns t ++ created_by spawns ts

-- `added` gives the timers that the handler of a timer adds.
module _ (added : Timer → List Timer) where
  unfoldable pub late_timers : ℕ → ℕ → Loop → Outcome (ℕ × Loop)
  late_timers fuel clock l = do
    r ← process added fuel l.now l.timers
    let l' : Loop = record l { timers = r.1; now = clock; handled = l.handled ++ r.0 }
    ok (wait_for (next_trigger_time clock r.1) l', l')

  -- `clock` is the time that is read where a timer was late.
  unfoldable pub calculation_blocktime : ℕ → ℕ → Loop → Outcome (ℕ × Loop)
  calculation_blocktime fuel clock l =
      if loop_is_idle l
      then ok (maximum_blocking_time, l)
      else elim (next_trigger_time l.now l.timers) [
        | negsuc n ↦ late_timers fuel clock l
        | pos n ↦ ok (wait_for (pos n) l, l)
      ]

  -- `io` is what `processIo` does to the loop, and `spawns` gives the tasks that a task creates, which
  -- are run in the next round.
  unfoldable pub run_once :
      ℕ → ℕ → ℕ → ℕ → ℕ → (Loop → Loop) → (ℕ → List ℕ) → Loop → Outcome (List Event × Loop)
  run_once fuel fuel' clock1 clock2 clock3 io spawns l = do
    b ← calculation_blocktime fuel clock2 (record l { now = clock1 })
    let polled = io b.1
    let l2 : Loop = record polled { now = if ltb 500 b.0 then clock3 else polled.now }
    r ← process added fuel' l2.now l2.timers
    let l3 : Loop = record l2 { timers = r.1; handled = l2.handled ++ r.0 }
    ok (
        if loop_is_idle l3 then (blocked b.0 ∷ each idle_run l3.idle, l3) else (
          blocked b.0 ∷ each task_run l3.tasks,
          record l3 { tasks = created_by spawns l3.tasks },
        ))
