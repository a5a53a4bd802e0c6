-- ===== src/Io/Cycle.antt =====
-- hulatang/io/CycleEventManager.cpp: the tasks of a loop. A task is a
-- number, and `spawns` gives the tasks that a task creates. The queue, moodycamel's, is a parameter.
pub mod Order
mod Examples
use hulatang_io.Base.{
  ℕ, zero, suc, ◌+◌, ◌-◌, ◌%◌, ◌^◌, List, [], ◌∷◌, ◌++◌, Bool, true, false, if◌then◌else◌, ltb,
  ◌==◌, Option, none, some, Outcome, ok, diverged, ◌>>=◌, ◌>>◌,
}

pub record Cycle (Q : Type 0) : Type 0 where
  pub queue : Q
  pub size : ℕ

-- `size` is a std::atomic_int32_t: these are its 32 bits.
abbrev pub incremented : ℕ → ℕ
incremented n = (n + 1) % 2 ^ 32

abbrev pub decremented : ℕ → ℕ
decremented n = (n + (2 ^ 32 - 1)) % 2 ^ 32

-- how often a loop up to an int32_t goes round
abbrev pub rounds : ℕ → ℕ
rounds n = if ltb n (2 ^ 31) then n else 0

module _ (Q : Type 0) (try_enqueue enqueue : ℕ → Q → Option Q) (try_dequeue : Q → Option (ℕ × Q))
    (spawns : ℕ → List ℕ) where
  unfoldable pub is_idle : Cycle Q → Bool
  is_idle m = m.size == 0

  -- `n` calls of `try_enqueue`, up to the first that does it
  unfoldable pub tries : ℕ → ℕ → Q → Option Q
  tries zero task q = none
  tries (suc n) task q =
      let again = tries n task q in elim (try_enqueue task q) [ none ↦ again | some q' ↦ some q' ]

  abbrev counted : Cycle Q → Q → Cycle Q
  counted m q = record { queue = q; size = incremented m.size }

  -- `createEvent(const std::function<void()> &)`: a queue that never takes the task is tried for ever.
  unfoldable pub create_event : ℕ → Cycle Q → Outcome (Cycle Q)
  create_event task m = elim (tries 50 task m.queue) [
    | some q ↦ ok (counted m q)
    | none ↦ elim (enqueue task m.queue) [ none ↦ diverged | some q ↦ ok (counted m q) ]
  ]

  -- `createEvent(std::function<void()> &&)`
  unfoldable pub create_event_moved : ℕ → Cycle Q → Outcome (Cycle Q)
  create_event_moved task m = elim (try_enqueue task m.queue) [
    | none ↦ diverged
    | some q ↦ ok (counted m q)
  ]

  unfoldable pub create_events : List ℕ → Cycle Q → Outcome (Cycle Q)
  create_events [] m = ok m
  create_events (t ∷ ts) m = do m' ← create_event t m; create_events ts m'

  -- A round of `process`, for the task that was taken: the task runs, then `--size`.
  abbrev ran : ℕ → Cycle Q → Outcome (Cycle Q)
  ran task m = do m' ← create_events (spawns task) m; ok (record m' { size = decremented m'.size })

  unfoldable pub process_from : ℕ → Cycle Q → Outcome (List ℕ × Cycle Q)
  process_from zero m = ok ([], m)
  process_from (suc n) m = elim (try_dequeue m.queue) [
    | none ↦ diverged
    | some r ↦ ran r.0 (record m { queue = r.1 }) >>= λ m'.
        process_from n m' >>= λ rest. ok (r.0 ∷ rest.0, rest.1)
  ]

  unfoldable pub process : Cycle Q → Outcome (List ℕ × Cycle Q)
  process m = process_from (rounds m.size) m
