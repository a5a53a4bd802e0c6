-- ===== src/Io/Loop/Run.antt =====
-- hulatang/io/EventLoop.cpp: `run`, with tasks of the loop that create others and that stop it.
use hulatang_io.Base.{
  ℕ, zero, suc, ◌+◌, ◌<◌, ◌≡◌, refl, ap, List, [], ◌∷◌, ◌++◌, Bool, true, false, ◌||◌,
  if◌then◌else◌, Outcome, ok, diverged, ◌>>=◌, arith, Succeeds,
}
use hulatang_io.Io.Timer.{Timer, process_from, is_idle, next_trigger_time}
use hulatang_io.Io.Loop.{
  Loop, Event, blocked, task_run, idle_run, each, created_by, run_once, calculation_blocktime,
  loop_is_idle, wait_for,
}

abbrev pub any : (ℕ → Bool) → List ℕ → Bool
any stops [] = false
any stops (t ∷ ts) = stops t || any stops ts

-- Whether a task that was run in a round has stopped the loop.
abbrev pub stopped_by : (ℕ → Bool) → List Event → Bool
stopped_by stops [] = false
stopped_by stops (blocked t ∷ es) = stopped_by stops es
stopped_by stops (task_run t ∷ es) = stops t || stopped_by stops es
stopped_by stops (idle_run t ∷ es) = stopped_by stops es

module _ (added : Timer → List Timer) (spawns : ℕ → List ℕ) (stops : ℕ → Bool) (clock : ℕ → ℕ) where
  -- The loop of `run`, on fuel: `i` is the number of the next reading of the clock, and no descriptor is ready.
  unfoldable pub run : (rounds timers i : ℕ) → Loop → Outcome (List Event × Loop)
  run zero timers i l = diverged
  run (suc n) timers i l = do
    r ←
        run_once added timers timers (clock i) (clock (1 + i)) (clock (2 + i)) (λ (l' : Loop). l')
          spawns l
    let rest = run n timers (3 + i) r.1
    if stopped_by stops r.0 then ok r else (rest >>= λ q. ok (r.0 ++ q.0, q.1))

-- A generation of tasks has one that stops the loop, or it has none and a later one has, so many generations on.
pub data Stops (spawns : ℕ → List ℕ) (stops : ℕ → Bool) : ℕ → List ℕ → Type 0 where
  at_once : {t : ℕ} {ts : List ℕ} → any stops (t ∷ ts) ≡ true → Stops spawns stops zero (t ∷ ts)
  later :
      {d t : ℕ} {ts : List ℕ}
      → any stops (t ∷ ts) ≡ false
      → Stops spawns stops d (created_by spawns (t ∷ ts))
      → Stops spawns stops (suc d) (t ∷ ts)

-- What a loop without timers does with so many generations.
abbrev pub generations : (ℕ → List ℕ) → ℕ → List ℕ → List Event
generations spawns zero ts = blocked 0 ∷ each task_run ts
generations spawns (suc d) ts =
    (blocked 0 ∷ each task_run ts) ++ generations spawns d (created_by spawns ts)

abbrev pub tasks_only : ℕ → List ℕ → List ℕ → List Timer → Loop
tasks_only now tasks idle handled = record {
  now = now;
  timers = [];
  tasks = tasks;
  idle = idle;
  handled = handled;
}

stopped_by-each :
    (stops : ℕ → Bool) (ts : List ℕ) → stopped_by stops (each task_run ts) ≡ any stops ts
stopped_by-each stops [] = refl
stopped_by-each stops (t ∷ ts) = ap (λ b. stops t || b) (stopped_by-each stops ts)

module _ (added : Timer → List Timer) (spawns : ℕ → List ℕ) (stops : ℕ → Bool) (clock : ℕ → ℕ) where
  -- A round with tasks and without timers does not block.
  run_once-tasks :
      (timers c1 c2 c3 now' t : ℕ) (ts idle : List ℕ) (handled : List Timer)
      → run_once added
          (suc timers)
          (suc timers)
          c1
          c2
          c3
          (λ (l : Loop). l)
          spawns
          (tasks_only now' (t ∷ ts) idle handled)
        ≡ ok (
          blocked 0 ∷ each task_run (t ∷ ts),
          tasks_only c1 (created_by spawns (t ∷ ts)) idle (handled ++ []),
        )
  unfolding run_once calculation_blocktime process_from wait_for loop_is_idle is_idle
      next_trigger_time
  run_once-tasks timers c1 c2 c3 now' t ts idle handled = refl

  -- A loop without timers whose tasks stop it, or whose tasks create tasks, and so on, one generation of which stops it
  -- first: `run` comes to its end behind that generation, with as many rounds as there are generations or more, and
  -- has then run the tasks of each generation, one after the other and in order, without a wait.
  pub run-Stops :
      (d rounds timers i now' : ℕ) (ts idle : List ℕ) (handled : List Timer)
      → Stops spawns stops d ts
      → d < rounds
      → Succeeds
          (run added spawns stops clock rounds (suc timers) i (tasks_only now' ts idle handled))
          λ r. r.0 ≡ generations spawns d ts
  unfolding run
  run-Stops d zero timers i now' ts idle handled w h = absurd (omega arith)
  run-Stops zero (suc n) timers i now' (t ∷ ts) idle handled (at_once yes') h = (
    (
      blocked 0 ∷ each task_run (t ∷ ts),
      tasks_only (clock i) (created_by spawns (t ∷ ts)) idle (handled ++ []),
    ),
    rw
        (
          run_once-tasks timers (clock i) (clock (1 + i)) (clock (2 + i)) now' t ts idle handled,
          stopped_by-each stops ts,
          yes',
        )
        refl,
    refl,
  )
  run-Stops zero (suc n) timers i now' [] idle handled w h = elim w [ ]
  run-Stops (suc d) (suc n) timers i now' [] idle handled w h = elim w [ ]
  run-Stops (suc d) (suc n) timers i now' (t ∷ ts) idle handled (later no' more) h =
      let rest =
        run-Stops d n timers (3 + i) (clock i) (created_by spawns (t ∷ ts)) idle (handled ++ [])
          more (omega arith) in
      (
        (blocked 0 ∷ each task_run (t ∷ ts) ++ rest.0.0, rest.0.1),
        rw
            (
              run_once-tasks timers (clock i) (clock (1 + i)) (clock (2 + i)) now' t ts idle
                  handled,
              stopped_by-each stops ts,
              no',
            )
            (rw rest.1 refl),
        ap (λ es. (blocked 0 ∷ each task_run (t ∷ ts)) ++ es) rest.2,
      )
