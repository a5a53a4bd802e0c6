-- ===== src/Io/Idle.antt =====
-- hulatang/io/IdleEventManager.cpp: what a loop runs in a round without timers and tasks. A callback is a number, and
-- `spawns` gives the callbacks that a callback creates.
use hulatang_io.Base.{ℕ, List, [], ◌∷◌, ◌++◌, Outcome, ok, undefined, ◌>>=◌}

-- the two `createEvent`
unfoldable pub create_idle_event : ℕ → List ℕ → List ℕ
create_idle_event task watchers = watchers ++ task ∷ []

-- `process`: a callback that creates another makes the iterators of the loop invalid.
unfoldable pub process_idle : (ℕ → List ℕ) → List ℕ → Outcome (List ℕ)
process_idle spawns [] = ok []
process_idle spawns (w ∷ ws) =
    let rest = process_idle spawns ws in
    elim (spawns w) [ [] ↦ rest >>= λ hs. ok (w ∷ hs) | t ∷ ts ↦ undefined ]
