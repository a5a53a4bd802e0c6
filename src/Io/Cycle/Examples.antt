-- ===== src/Io/Cycle/Examples.antt =====
-- Two tasks in a queue that is a list, the first of which creates a third.
use hulatang_io.Base.{
  ℕ, ◌+◌, ◌%◌, ◌^◌, ◌≡◌, refl, List, [], ◌∷◌, ◌++◌, length, arith, Option, none, some, Succeeds,
  ◌==◌, if◌then◌else◌,
}
use hulatang_io.Io.Cycle.{Cycle, process}
use hulatang_io.Io.Cycle.Order.{process-order}

abbrev enqueue : ℕ → List ℕ → Option (List ℕ)
enqueue t q = some (q ++ t ∷ [])

-- a queue with no room of its own
abbrev try_enqueue : ℕ → List ℕ → Option (List ℕ)
try_enqueue t q = none

abbrev try_dequeue : List ℕ → Option (ℕ × List ℕ)
try_dequeue [] = none
try_dequeue (t ∷ q) = some (t, q)

abbrev spawns : ℕ → List ℕ
spawns t = if t == 7 then 8 ∷ [] else []

abbrev two_tasks : Cycle (List ℕ)
two_tasks = record { queue = 7 ∷ 9 ∷ []; size = 2 }

abbrev itself : List ℕ → List ℕ
itself q = q

taken :
    (t : ℕ) (ts q : List ℕ)
    → q ≡ t ∷ ts
    → (q' : List ℕ) × (try_dequeue q ≡ some (t, q')) × (q' ≡ ts)
taken t ts q e = rw e (ts, refl, refl)

not_taken : (t : ℕ) (q q' : List ℕ) → try_enqueue t q ≡ some q' → q' ≡ q ++ t ∷ []
not_taken t q q' e = absurd cc

process-order_example :
    Succeeds
      (process (List ℕ) try_enqueue enqueue try_dequeue spawns two_tasks)
      λ r. (r.0 ≡ 7 ∷ 9 ∷ []) × (r.1.queue ≡ 8 ∷ []) × (r.1.size ≡ (length r.1.queue + 0) % 2 ^ 32)
process-order_example =
    process-order (List ℕ) try_enqueue enqueue try_dequeue itself not_taken
      (λ t q. (q ++ t ∷ [], refl, refl)) taken spawns two_tasks (omega arith) refl
