-- ===== src/Io/Timer/Examples.antt =====
-- Sets of two and three timers.
use hulatang_io.Base.{
  ℕ, suc, ◌≡◌, refl, List, [], ◌∷◌, true, false, length, arith, ok, some, Succeeds,
}
use hulatang_io.Io.Timer.{Timer, one_shot, add, cancel, process, negsuc, next_trigger_time}
use hulatang_io.Io.Timer.Set.{Ordered, has_timeout, add-cancel}
use hulatang_io.Io.Timer.Fire.{due, Later, process-due}
use hulatang_io.Io.Timer.Cancel.{new_watcher, new_invoke_timer, invoke_cancel, do_cancel}
use hulatang_io.Io.Timer.Repeat.{repeater, process-starved}

abbrev once : ℕ → ℕ → Timer
once address timeout = record { address = address; timeout = timeout; kind = one_shot }

abbrev three : List Timer
three = once 4096 10 ∷ repeater 8192 20 100 3 ∷ once 12288 40 ∷ []

next_trigger_time_late : next_trigger_time 25 three ≡ negsuc 14
unfolding next_trigger_time
next_trigger_time_late = refl

add_then_cancel :
    Ordered 0 (add (once 16384 30) three)
    × (has_timeout 30 three ≡ true → add (once 16384 30) three ≡ three)
    × (has_timeout 30 three ≡ false
        → (length (add (once 16384 30) three) ≡ 4)
          × (has_timeout 30 (add (once 16384 30) three) ≡ true)
          × (cancel (once 16384 30) (add (once 16384 30) three) ≡ three))
add_then_cancel =
    add-cancel 0 (once 16384 30) three (omega arith) (omega arith, (omega arith, (omega arith, tt)))

process-due_example :
    Succeeds
      (process (λ t. once 16384 50 ∷ []) (suc (length (due 25 three))) 25 three)
      λ r. (r.0 ≡ due 25 three) × Later 25 r.1
process-due_example =
    process-due (λ t. once 16384 50 ∷ []) 25 0 three (λ t. (omega arith, tt, tt))
      (omega arith, (omega arith, (omega arith, tt))) (tt, (omega arith, (tt, tt)))

process-starved_example :
    (process (λ t. []) 2 10 (repeater 4096 10 1000 3 ∷ once 8192 20 ∷ [])
      ≡ ok (repeater 4096 10 1000 3 ∷ [], repeater 4096 1010 1000 2 ∷ once 8192 20 ∷ []))
    × (process (λ t. []) 1 900 (repeater 4096 1010 1000 2 ∷ once 8192 20 ∷ [])
        ≡ ok ([], repeater 4096 1010 1000 2 ∷ once 8192 20 ∷ []))
process-starved_example =
    process-starved 10 900 1000 4096 10 2 (once 8192 20) (omega arith) (omega arith) (omega arith)
      (omega arith)

-- The second of the three is cancelled, and stays.
invoke_cancel_second :
    invoke_cancel (some (new_invoke_timer (new_watcher (repeater 8192 20 100 3)))) three ≡ three
unfolding invoke_cancel hulatang_io.Io.Timer.Cancel.watcher_cancel
    hulatang_io.Io.Timer.Cancel.run_callback new_invoke_timer new_watcher
invoke_cancel_second = refl

-- `doCancel` would take it out.
do_cancel_second :
    (do_cancel (new_watcher (repeater 8192 20 100 3)) three).1 ≡ once 4096 10 ∷ once 12288 40 ∷ []
unfolding do_cancel new_watcher cancel
do_cancel_second = refl
