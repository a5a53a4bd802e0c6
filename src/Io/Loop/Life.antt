-- ===== src/Io/Loop/Life.antt =====
-- hulatang/io/EventLoop.cpp: a loop is made and destroyed. A thread has one loop at most, `currentEventLoop`, here the
-- address of it.
use hulatang_io.Base.{ℕ, Bool, true, false, not, [], Option, none, some, Outcome, ok, assert, ◌>>◌}
use hulatang_io.Io.Status.{Status, initialized}
use hulatang_io.Io.Loop.{Loop}

abbrev has_loop : Option ℕ → Bool
has_loop none = false
has_loop (some address) = true

-- The constructor, with `init`: `clock` is the time that is read.
unfoldable pub new_event_loop : ℕ → ℕ → Option ℕ → Outcome ((Loop × Status) × Option ℕ)
new_event_loop clock address current = do
  assert (not (has_loop current))
  ok (
    (record { now = clock; timers = []; tasks = []; idle = []; handled = [] }, initialized),
    some address,
  )

-- the destructor
unfoldable pub destroy_event_loop : Option ℕ → Outcome (Option ℕ)
destroy_event_loop current = do assert (has_loop current); ok none

-- `getEventLoopOfCurrentThread`
unfoldable pub loop_of_thread : Option ℕ → Option ℕ
loop_of_thread current = current
