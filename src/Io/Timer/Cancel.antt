-- ===== src/Io/Timer/Cancel.antt =====
-- hulatang/io/InvokeTimer.cpp, EventWatcher.cpp and `doCancel` of TimerEventWatcher.cpp: how a timer is cancelled.
use hulatang_io.Base.{◌≡◌, refl, List, Bool, true, false, if◌then◌else◌, Option, none, some}
use hulatang_io.Io.Timer.{Timer, cancel}

-- The cancel callback of a watcher: none, or that of the InvokeTimer that was made for it.
pub data CancelCallback : Type 0 where
  no_callback on_cancel : CancelCallback

-- A watcher: its timer, whether it is `attached`, and its callback.
pub record Watcher : Type 0 where
  pub timer : Timer
  pub attached : Bool
  pub callback : CancelCallback

-- `TimerEventWatcher`
unfoldable pub new_watcher : Timer → Watcher
new_watcher t = record { timer = t; attached = true; callback = no_callback }

-- `InvokeTimer`, which sets the callback of the watcher
unfoldable pub new_invoke_timer : Watcher → Watcher
new_invoke_timer w = record w { callback = on_cancel }

-- `InvokeTimer::onCancel` does nothing to the timers of the loop.
unfoldable pub run_callback : CancelCallback → List Timer → List Timer
run_callback no_callback timers = timers
run_callback on_cancel timers = timers

-- `ClosableEventWatcher::cancel`
unfoldable pub watcher_cancel : Watcher → List Timer → List Timer
watcher_cancel w timers = run_callback w.callback timers

-- `InvokeTimer::cancel`, of a watcher that may be gone
unfoldable pub invoke_cancel : Option Watcher → List Timer → List Timer
invoke_cancel none timers = timers
invoke_cancel (some w) timers = watcher_cancel w timers

-- `doCancel`, in the thread of the loop, which nothing calls
unfoldable pub do_cancel : Watcher → List Timer → Watcher × List Timer
do_cancel w timers =
    if w.attached then (record w { attached = false }, cancel w.timer timers) else (w, timers)

-- Cancelling through an InvokeTimer leaves the timers of the loop as they are.
invoke_cancel-keeps : (w : Option Watcher) (timers : List Timer) → invoke_cancel w timers ≡ timers
unfolding invoke_cancel watcher_cancel
invoke_cancel-keeps none timers = refl
invoke_cancel-keeps (some w) timers = unfold run_callback in callback w.callback
  where
    callback : (c : CancelCallback) → run_callback c timers ≡ timers
    callback no_callback = unfold run_callback in refl
    callback on_cancel = unfold run_callback in refl
