-- ===== src/Io/Timer/Creation.antt =====
-- hulatang/io/TimerEventWatcher.cpp: how a timer is made, in the thread of its loop or in another.
use hulatang_io.Base.{ℕ, ◌+◌, ◌≡◌, refl, List, [], ◌∷◌, ◌++◌, Bool, true, false}
use hulatang_io.Io.Timer.{Timer, one_shot, repeating, add}
use hulatang_io.Io.Timer.Cancel.{Watcher, new_watcher}

-- The timers of a loop, and those that tasks of the loop have still to add.
pub record Timers : Type 0 where
  pub set : List Timer
  pub to_add : List Timer

-- `runInLoop` of the lambda that adds the timer
unfoldable pub add_in_loop : Bool → Timer → Timers → Timers
add_in_loop true t s = record s { set = add t s.set }
add_in_loop false t s = record s { to_add = s.to_add ++ t ∷ [] }

-- The tasks are run.
unfoldable pub add_each : List Timer → List Timer → List Timer
add_each [] set = set
add_each (t ∷ ts) set = add_each ts (add t set)

unfoldable pub run_to_add : Timers → Timers
run_to_add s = record { set = add_each s.to_add s.set; to_add = [] }

-- the two `TimerEventWatcher::create`
unfoldable pub create_watcher : Bool → ℕ → ℕ → Timers → Watcher × Timers
create_watcher in_loop address timeout s =
    let t : Timer = record { address = address; timeout = timeout; kind = one_shot } in
    (new_watcher t, add_in_loop in_loop t s)

-- the two `RepeatTimerEventWatcher::create`: the first timeout is an interval from the time `now` of the loop.
unfoldable pub create_repeating : Bool → ℕ → ℕ → ℕ → ℕ → Timers → Watcher × Timers
create_repeating in_loop now interval repeat address s =
    let t : Timer = record {
      address = address;
      timeout = now + interval;
      kind = repeating interval repeat;
    } in
    (new_watcher t, add_in_loop in_loop t s)

add_each-append : (ts us set : List Timer) → add_each (ts ++ us) set ≡ add_each us (add_each ts set)
unfolding add_each
add_each-append [] us set = refl
add_each-append (t ∷ ts) us set = add_each-append ts us (add t set)

-- A timer that another thread makes stands, once the loop has run its tasks, where it would stand if the loop had
-- made it then.
create_watcher-run_to_add :
    (address timeout : ℕ) (s : Timers)
    → run_to_add (create_watcher false address timeout s).1
      ≡ (create_watcher true address timeout (run_to_add s)).1
unfolding create_watcher run_to_add add_in_loop add_each
create_watcher-run_to_add address timeout s =
    rw
      (
        add_each-append s.to_add
            (record { address = address; timeout = timeout; kind = one_shot } ∷ []) s.set,
        add_each,
      )
      refl
