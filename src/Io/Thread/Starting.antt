-- ===== src/Io/Thread/Starting.antt =====
-- `startLoop` waits for the thread, and the thread does not wait for it.
use hulatang_io.Base.{
  ℕ, suc, ◌-◌, ◌≤◌, ◌≡◌, ◌≢◌, refl, sym, subst, ◌∙◌, List, [], ◌∷◌, Bool, true, false, arith,
}
use hulatang_io.Io.Thread.{
  Worker, unborn, building, announcing_start, initialising, publishing, announcing_run,
  run_starting, run_running, testing, in_round, leaving, clearing, announcing_stop, finished, Owner,
  outside, waiting, returned, polling, storing, calling, joining, joined, crashed, State,
  new_thread, work, own, Who, the_owner, the_worker, the_stopper, stop_inside, turn, interleave,
  worker_turns,
}
use hulatang_io.Io.Thread.Invariant.{
  IsSound, turn-IsSound, stop_inside-IsSound, stop_inside-worker, interleave-IsSound,
}

-- How many turns the worker needs to publish the loop.
abbrev distance : Worker → ℕ
distance building = 4
distance announcing_start = 3
distance initialising = 2
distance publishing = 1
distance _ = 0

-- The thread has set `loop_` to null again.
abbrev pub is_gone : Worker → Bool
is_gone announcing_stop = true
is_gone finished = true
is_gone _ = false

-- Behind the call of `startLoop`, with at most `n` turns of the worker before the loop is published.
record IsNear (n : ℕ) (s : State) : Type 0 where
  sound : IsSound s
  called : s.owner ≢ outside
  near : distance s.worker ≤ n

worker-IsNear :
    (w : Worker) (n : ℕ) (s : State)
    → s.worker ≡ w
    → IsNear n s
    → distance (work w s).worker ≤ n - 1
unfolding work
worker-IsNear unborn n s e h = absurd (h.sound.born h.called e)
worker-IsNear building n s e h = ground arith
worker-IsNear announcing_start n s e h = ground arith
worker-IsNear initialising n s e h = ground arith
worker-IsNear publishing n s e h = ground arith
worker-IsNear announcing_run n s e h = ground arith
worker-IsNear run_starting n s e h = ground arith
worker-IsNear run_running n s e h = ground arith
worker-IsNear testing n s e h = ground arith
worker-IsNear in_round n s e h = ground arith
worker-IsNear leaving n s e h = ground arith
worker-IsNear clearing n s e h = ground arith
worker-IsNear announcing_stop n s e h = ground arith
worker-IsNear finished n s e h = ground arith

work-owner : (w : Worker) (s : State) → (work w s).owner ≡ s.owner
unfolding work
work-owner w s = ground arith

own-worker :
    (o : Owner) (s : State)
    → s.owner ≡ o
    → o ≢ outside
    → ((own o s).worker ≡ s.worker) × ((own o s).owner ≢ outside)
unfolding own
own-worker o s e h = ground arith

owner-IsNear : (n : ℕ) (s : State) → IsNear n s → IsNear n (turn the_owner s)
unfolding turn
owner-IsNear n s h =
    let kept = own-worker s.owner s refl h.called in
    record { sound = turn-IsSound the_owner s h.sound; called = kept.1; near = rw kept.0 h.near }

stop_inside-IsNear : (n : ℕ) (s : State) → IsNear n s → IsNear n (stop_inside s.worker s)
unfolding stop_inside
stop_inside-IsNear n s h = record {
  sound = stop_inside-IsSound s h.sound;
  called = ground arith;
  near = ground arith;
}

worker_turn-IsNear : (n : ℕ) (s : State) → IsNear n s → IsNear (n - 1) (turn the_worker s)
unfolding turn
worker_turn-IsNear n s h = record {
  sound = turn-IsSound the_worker s h.sound;
  called = rw (work-owner s.worker s) h.called;
  near = worker-IsNear s.worker n s refl h;
}

stopper_turn-IsNear : (n : ℕ) (s : State) → IsNear n s → IsNear (n - 1) (turn the_stopper s)
unfolding turn
stopper_turn-IsNear n s h =
    let s' = stop_inside s.worker s in
    let q = stop_inside-IsNear n s h in
    record {
      sound = turn-IsSound the_stopper s h.sound;
      called = rw (work-owner s.worker s') q.called;
      near = worker-IsNear s.worker n s' (stop_inside-worker s) q;
    }

interleave-IsNear :
    (ws : List Who) (n : ℕ) (s : State)
    → IsNear n s
    → IsNear (n - worker_turns ws) (interleave ws s)
unfolding interleave
interleave-IsNear [] n s h = subst (λ k. IsNear k s) (omega arith) h
interleave-IsNear (the_owner ∷ ws) n s h =
    interleave-IsNear ws n (turn the_owner s) (owner-IsNear n s h)
interleave-IsNear (the_worker ∷ ws) n s h =
    subst (λ k. IsNear k (interleave ws (turn the_worker s))) same
      (interleave-IsNear ws (n - 1) (turn the_worker s) (worker_turn-IsNear n s h))
  where
    same : n - 1 - worker_turns ws ≡ n - suc (worker_turns ws)
    same = omega arith
interleave-IsNear (the_stopper ∷ ws) n s h =
    subst (λ k. IsNear k (interleave ws (turn the_stopper s))) same
      (interleave-IsNear ws (n - 1) (turn the_stopper s) (stopper_turn-IsNear n s h))
  where
    same : n - 1 - worker_turns ws ≡ n - suc (worker_turns ws)
    same = omega arith

published-returns :
    (o : Owner) (s : State)
    → s.owner ≡ o
    → IsNear 0 s
    → s.task_stopped ≡ false
    → (own o s).owner ≢ waiting
unfolding own
published-returns outside s e h free = absurd (h.called e)
published-returns waiting s e h free = ground arith
published-returns returned s e h free = ground arith
published-returns polling s e h free = ground arith
published-returns storing s e h free = ground arith
published-returns calling s e h free = ground arith
published-returns joining s e h free = ground arith
published-returns joined s e h free = ground arith
published-returns crashed s e h free = ground arith

-- In every order of turns in which the thread has four turns or more while `startLoop` waits, whether the callback stops
-- the loop or not, but in which no task of the loop has stopped it: the next turn of the owner finds the loop
-- published, and `startLoop` has returned.
pub start_loop_returns :
    (before after : List Who)
    → (interleave before new_thread).owner ≡ waiting
    → 4 ≤ worker_turns after
    → (interleave after (interleave before new_thread)).task_stopped ≡ false
    → (turn the_owner (interleave after (interleave before new_thread))).owner ≢ waiting
unfolding turn
start_loop_returns before after e enough free =
    let s = interleave before new_thread in
    let h : IsNear 4 s = record {
      sound = interleave-IsSound before;
      called = λ other. absurd (apart (sym other ∙ e));
      near = distance_bound s.worker;
    } in
    let t = interleave after s in
    published-returns t.owner t refl
      (subst (λ k. IsNear k t) (omega arith) (interleave-IsNear after 4 s h)) free
  where
    apart : outside ≢ waiting
    apart e = cc

    distance_bound : (w : Worker) → distance w ≤ 4
    distance_bound w = ground arith

-- `startLoop` waits for a thread that has taken its loop back.
record IsMissed (s : State) : Type 0 where
  waits : s.owner ≡ waiting
  gone : is_gone s.worker ≡ true
  null : s.loop ≡ false

turn-IsMissed : (w : Who) (s : State) → IsMissed s → IsMissed (turn w s)
unfolding turn work own stop_inside
turn-IsMissed the_owner s h = ground arith
turn-IsMissed the_worker s h = ground arith
turn-IsMissed the_stopper s h = ground arith

interleave-IsMissed : (ws : List Who) (s : State) → IsMissed s → IsMissed (interleave ws s)
unfolding interleave
interleave-IsMissed [] s h = h
interleave-IsMissed (w ∷ ws) s h = interleave-IsMissed ws (turn w s) (turn-IsMissed w s h)

missed : (s : State) → IsSound s → s.owner ≡ waiting → is_gone s.worker ≡ true → IsMissed s
missed s h e gone = record { waits = e; gone = gone; null = ground arith }

missed-task_stopped :
    (s : State) → IsSound s → s.owner ≡ waiting → is_gone s.worker ≡ true → s.task_stopped ≡ true
missed-task_stopped s h e gone = ground arith

-- Where the thread has taken its loop back while `startLoop` still waits, a task has stopped the loop, and `startLoop`
-- waits in every order of turns that follows.
pub start_loop_missed :
    (before after : List Who)
    → (interleave before new_thread).owner ≡ waiting
    → is_gone (interleave before new_thread).worker ≡ true
    → ((interleave before new_thread).task_stopped ≡ true)
      × ((interleave after (interleave before new_thread)).owner ≡ waiting)
start_loop_missed before after e gone =
    let s = interleave before new_thread in
    (
      missed-task_stopped s (interleave-IsSound before) e gone,
      (interleave-IsMissed after s (missed s (interleave-IsSound before) e gone)).waits,
    )
