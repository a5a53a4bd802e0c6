-- ===== src/Io/Loop/Examples.antt =====
-- A loop with one timer.
use hulatang_io.Base.{
  Bool, ◌==◌, if◌then◌else◌, ℕ, ◌+◌, ◌≤◌, ◌≡◌, refl, List, [], ◌∷◌, arith, ok, Succeeds, ◌⊎◌, suc,
  length,
}
use hulatang_io.Io.Timer.{Timer, one_shot}
use hulatang_io.Io.Timer.Fire.{due}
use hulatang_io.Io.Loop.{Loop, blocked, task_run, run_once, calculation_blocktime}
use hulatang_io.Io.Loop.Run.{run, at_once, later, generations, tasks_only, run-Stops}
use hulatang_io.Io.Loop.Wait.{Fits, calculation_blocktime_lem, calculation_blocktime-wakes}

abbrev alarm : Timer
alarm = record { address = 4096; timeout = 5000; kind = one_shot }

abbrev nothing : Timer → List Timer
nothing t = []

abbrev at_time : ℕ → Loop
at_time now = record { now = now; timers = alarm ∷ []; tasks = []; idle = []; handled = [] }

calculation_blocktime_lem_example :
    Succeeds
      (calculation_blocktime nothing (suc (length (due 7000 (alarm ∷ [])))) 7010 (at_time 7000))
      λ r. Fits r.1 r.0
calculation_blocktime_lem_example =
    calculation_blocktime_lem nothing 7010 0 (at_time 7000) (λ t. tt) (omega arith, tt) (tt, tt)

calculation_blocktime_early :
    Succeeds
      (calculation_blocktime nothing 1 2010 (at_time 2000))
      λ r. (r.1 ≡ at_time 2000) × ((r.0 ≤ 1000) ⊎ (2000 + r.0 ≤ 5000))
calculation_blocktime_early =
    calculation_blocktime-wakes nothing 1 2010 (at_time 2000) alarm [] refl refl (omega arith)

abbrev unchanged : Loop → Loop
unchanged l = l

abbrev no_more : ℕ → List ℕ
no_more t = []

-- A round at the time of the alarm, with a task that waits.
run_once-alarm :
    run_once nothing 2 1 6000 6001 6002 unchanged no_more (record (at_time 0) { tasks = 7 ∷ [] })
    ≡ ok (
      blocked 0 ∷ task_run 7 ∷ [],
      record { now = 6001; timers = []; tasks = []; idle = []; handled = alarm ∷ [] },
    )
unfolding run_once calculation_blocktime hulatang_io.Io.Loop.loop_is_idle
    hulatang_io.Io.Timer.is_idle hulatang_io.Io.Timer.next_trigger_time
    hulatang_io.Io.Loop.late_timers hulatang_io.Io.Timer.process_from hulatang_io.Io.Timer.handle
    hulatang_io.Io.Timer.renew hulatang_io.Io.Timer.add_each hulatang_io.Io.Loop.wait_for
run_once-alarm = refl

-- Task 1 creates 2 and 3, and 3 stops the loop.
abbrev creates : ℕ → List ℕ
creates t = if t == 1 then 2 ∷ 3 ∷ [] else []

abbrev stops_at : ℕ → Bool
stops_at t = t == 3

run-Stops_example :
    Succeeds
      (run nothing creates stops_at (λ i. i) 5 1 0 (tasks_only 0 (1 ∷ 4 ∷ []) [] []))
      λ r. r.0 ≡ generations creates 1 (1 ∷ 4 ∷ [])
run-Stops_example =
    run-Stops nothing creates stops_at (λ i. i) 1 5 0 0 0 (1 ∷ 4 ∷ []) [] []
      (later refl (at_once refl)) (omega arith)
