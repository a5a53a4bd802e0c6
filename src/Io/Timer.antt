-- ===== src/Io/Timer.antt =====
-- hulatang/io/TimerEventManager.cpp, TimerEventWatcher.cpp and InvokeTimer.cpp: the timers of a loop.
-- Times are microseconds. The std::set is the list of its elements in order.
pub mod Set
pub mod Fire
pub mod Repeat
pub mod Cancel
pub mod Creation
mod Examples
use hulatang_io.Base.{
  ℕ, zero, suc, ◌+◌, ◌-◌, ◌^◌, List, [], ◌∷◌, ◌++◌, Bool, true, false, if◌then◌else◌, ltb, leb,
  ◌==◌, Outcome, ok, diverged, ◌>>=◌, ◌>>◌,
}

-- A TimerEventWatcher, or a RepeatTimerEventWatcher with its interval and `repeat`.
pub data Kind : Type 0 where
  one_shot : Kind
  repeating : ℕ → ℕ → Kind

pub record Timer : Type 0 where
  pub address : ℕ
  pub timeout : ℕ
  pub kind : Kind

abbrev pub infinite : ℕ
infinite = 2 ^ 32 - 1

-- The insertion at the place of the key `k`, which does nothing where that key is taken.
unfoldable pub add_at : ℕ → Timer → List Timer → List Timer
add_at k t [] = t ∷ []
add_at k t (u ∷ s) =
    let rest = add_at k t s in
    if ltb u.timeout k then u ∷ rest else if ltb k u.timeout then t ∷ u ∷ s else u ∷ s

abbrev pub add : Timer → List Timer → List Timer
add t s = add_at t.timeout t s

-- The element that is erased is the one whose timeout is that of the watcher.
unfoldable pub cancel : Timer → List Timer → List Timer
cancel t [] = []
cancel t (u ∷ s) =
    let rest = cancel t s in
    if ltb u.timeout t.timeout then u ∷ rest else if ltb t.timeout u.timeout then u ∷ s else s

unfoldable pub is_idle : List Timer → Bool
is_idle [] = true
is_idle (t ∷ s) = false

-- a signed number of microseconds
pub data ℤ : Type 0 where
  pos negsuc : ℕ → ℤ

abbrev pub difference : ℕ → ℕ → ℤ
difference a b = if leb b a then pos (a - b) else negsuc (b - a - 1)

unfoldable pub next_trigger_time : ℕ → List Timer → ℤ
next_trigger_time now [] = pos 1000000
next_trigger_time now (t ∷ s) = difference t.timeout now

-- The set while `process` goes over it: `rest` begins with the element of the iterator.
pub record Pass : Type 0 where
  pub before : List Timer
  pub rest : List Timer

unfoldable pub add_in : ℕ → Timer → Pass → Pass
add_in k t p = elim p.rest [
  | [] ↦ record p { before = add_at k t p.before }
  | u ∷ s ↦
      if ltb u.timeout k
      then record p { rest = u ∷ add_at k t s }
      else if ltb k u.timeout
      then record p { before = add_at k t p.before }
      else p
]

unfoldable pub add_each : List Timer → Pass → Pass
add_each [] p = p
add_each (t ∷ ts) p = add_each ts (add_in t.timeout t p)

-- `RepeatTimerEventWatcher::handle` behind the handler: the watcher is inserted at its old timeout,
-- and then the timeout is changed inside the set.
unfoldable pub renew : ℕ → Timer → Pass → Pass
renew now t p = elim t.kind [
  | one_shot ↦ p
  | repeating interval zero ↦ p
  | repeating interval (suc n) ↦
      add_in t.timeout
        (record t {
          timeout = now + interval;
          kind = repeating interval (if suc n == infinite then suc n else n);
        })
        p
]

-- `added` gives the timers that the handler of a timer adds.
module _ (added : Timer → List Timer) where
  unfoldable pub handle : ℕ → Timer → Pass → Pass
  handle now t p = renew now t (add_each (added t) p)

  -- The loop of `process`: the timers that were handled, and the set behind it.
  unfoldable pub process_from : ℕ → ℕ → Pass → Outcome (List Timer × List Timer)
  process_from zero now p = diverged
  process_from (suc fuel) now p = elim p.rest [
    | [] ↦ ok ([], p.before)
    | t ∷ s ↦
        let next = process_from fuel now (handle now t (record p { rest = s })) in
        if leb t.timeout now then (next >>= λ r. ok (t ∷ r.0, r.1)) else ok ([], p.before ++ t ∷ s)
  ]

  abbrev pub process : ℕ → ℕ → List Timer → Outcome (List Timer × List Timer)
  process fuel now s = process_from fuel now (record { before = []; rest = s })
