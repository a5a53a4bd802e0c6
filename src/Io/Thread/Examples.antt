-- ===== src/Io/Thread/Examples.antt =====
-- Tests of the two threads.
use hulatang_io.Base.{◌≡◌, ◌≢◌, refl, List, [], ◌∷◌, ◌++◌, true, false, ◌||◌, arith}
use hulatang_io.Io.Thread.{
  own, work, waiting, joining, new_thread, Who, the_owner, the_worker, the_stopper, stop_inside,
  in_round, turn, interleave,
}
use hulatang_io.Io.Thread.Invariant.{IsSound, is_looping, interleave-IsSound}
use hulatang_io.Io.Thread.Starting.{start_loop_returns, start_loop_missed}
use hulatang_io.Io.Thread.Stopping.{is_before, stop_lost}

abbrev four : List Who
four = the_worker ∷ the_worker ∷ the_worker ∷ the_worker ∷ []

-- `startLoop`, and `stop` up to the call of the loop, with the thread at the first store of `run`
abbrev early : List Who
early = the_owner ∷ four ++ the_owner ∷ the_worker ∷ the_owner ∷ the_owner ∷ the_owner ∷ []

-- the same, with the thread in the loop
abbrev late : List Who
late = early ++ the_worker ∷ the_worker ∷ the_worker ∷ []

start_loop_returns_example :
    (turn the_owner (interleave four (interleave (the_owner ∷ []) new_thread))).owner ≢ waiting
start_loop_returns_example = start_loop_returns (the_owner ∷ []) four called (omega arith) untouched
  where
    called : (interleave (the_owner ∷ []) new_thread).owner ≡ waiting
    called = unfold interleave turn own in refl

    untouched : (interleave four (interleave (the_owner ∷ []) new_thread)).task_stopped ≡ false
    untouched = unfold interleave turn own work in refl

stop_lost_example :
    let t = interleave (four ++ four) (turn the_owner (interleave early new_thread)) in
    (t.owner ≡ joining) × (is_before t.worker || is_looping t.worker ≡ true)
unfolding interleave turn own work
stop_lost_example = stop_lost early (four ++ four) refl refl refl

interleave-IsSound_example : IsSound (interleave late new_thread)
interleave-IsSound_example = interleave-IsSound late

-- A task of the first round stops the loop before `startLoop` has looked.
abbrev short : List Who
short = the_owner ∷ four ++ four ++ the_stopper ∷ the_worker ∷ the_worker ∷ the_worker ∷ []

start_loop_missed_example :
    ((interleave short new_thread).task_stopped ≡ true)
    × ((interleave (the_owner ∷ four) (interleave short new_thread)).owner ≡ waiting)
unfolding interleave turn own work stop_inside
start_loop_missed_example = start_loop_missed short (the_owner ∷ four) refl refl

-- The callback stops the loop, which goes unnoticed.
callback_stops :
    (interleave
      (the_owner ∷ the_worker ∷ the_worker ∷ the_stopper ∷ four ++ the_worker ∷ [])
      new_thread).worker
    ≡ in_round
unfolding interleave turn own work stop_inside
callback_stops = refl
