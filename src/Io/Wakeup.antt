-- ===== src/Io/Wakeup.antt =====
-- hulatang/io/EventLoop.cpp (`stop`, `queueInLoop` and `runInLoop`), async/LinuxFdEventManager.cpp and the waiting
-- of async/EPollFdEventManager.cpp: what other threads ask of a loop while it waits.
pub mod Delay
mod Examples
use hulatang_io.Base.{
  ℕ, ◌+◌, ◌≡◌, List, [], ◌∷◌, ◌++◌, Bool, true, false, not, ◌==◌, ltb, if◌then◌else◌, Option,
  Outcome, ok, ◌>>=◌, bit_and,
}
use hulatang_io.Io.Status.{Status, stopping}
use hulatang_io.Io.Channel.{Channel, Poller, Op, Event, add, enable_reading}
use hulatang_io.Io.Loop.{Loop}

-- An eventfd and what is done with it, `K` being the state of the kernel: a write adds to the count, a read clears
-- it, and the descriptor can be read while the count is not 0.
pub record EventFd (K : Type 0) : Type 0 where
  pub count : K → ℕ
  pub eventfd_write : ℕ → K → K
  pub eventfd_read : K → K
  pub write_adds : (n : ℕ) (k : K) → count (eventfd_write n k) ≡ count k + n
  pub read_clears : (k : K) → count (eventfd_read k) ≡ 0

abbrev pub readable : {K : Type 0} → EventFd K → K → Bool
readable fd k = not (fd.count k == 0)

-- A loop as the threads share it; `processing` is that of the LinuxFdEventManager.
pub record Shared (K : Type 0) : Type 0 where
  pub loop : Loop
  pub status : Status
  pub processing : Bool
  pub kernel : K

-- `LinuxFdEventManager::wakeup`, which adds 0 to the count
unfoldable pub linux_wakeup : {K : Type 0} → EventFd K → Shared K → Shared K
linux_wakeup fd s = if s.processing then record s { kernel = fd.eventfd_write 0 s.kernel } else s

-- `EPollFdEventManager::wakeup`, which overrides it
unfoldable pub epoll_wakeup : {K : Type 0} → Shared K → Shared K
epoll_wakeup s = s

-- `init` of the LinuxFdEventManager: `c` is the channel of the eventfd.
unfoldable pub linux_init :
    (K : Type 0) → (Op → Event → K → Option K) → Channel → Poller K → Outcome (Channel × Poller K)
linux_init K ctl c p = do p' ← add K ctl c p; enable_reading K ctl c p'

-- The handler of that channel; POLLIN is 1.
unfoldable pub linux_handler : {K : Type 0} → EventFd K → Channel → K → K
linux_handler fd c k = if bit_and c.revent 1 == 0 then k else fd.eventfd_read k

-- What another thread calls.
pub data Call : Type 0 where
  queue_call : ℕ → Call
  stop_call : Call

module _ (K : Type 0) (wakeup : Shared K → Shared K) where
  -- `if (!isInLoopThread()) wakeup();`
  abbrev woken : Bool → Shared K → Shared K
  woken in_loop s = if in_loop then s else wakeup s

  unfoldable pub queue_in_loop : Bool → ℕ → Shared K → Shared K
  queue_in_loop in_loop task s =
      woken in_loop (record s { loop = record s.loop { tasks = s.loop.tasks ++ task ∷ [] } })

  -- `runInLoop`: the tasks that run at once, and the loop
  unfoldable pub run_in_loop : Bool → ℕ → Shared K → List ℕ × Shared K
  run_in_loop true task s = (task ∷ [], s)
  run_in_loop false task s = ([], queue_in_loop false task s)

  unfoldable pub stop_loop : Bool → Shared K → Shared K
  stop_loop in_loop s = woken in_loop (record s { status = stopping })

  abbrev pub serve : Call → Shared K → Shared K
  serve (queue_call task) s = queue_in_loop false task s
  serve stop_call s = stop_loop false s

  -- `epoll_wait` up to a time, with the calls of other threads and their times, in order: when it returns, where no
  -- other descriptor becomes ready, and the loop then.
  unfoldable pub wait_until : EventFd K → ℕ → List (ℕ × Call) → Shared K → ℕ × Shared K
  wait_until fd deadline [] s = (deadline, s)
  wait_until fd deadline (c ∷ cs) s =
      let s' : Shared K = serve c.1 s in
      let later = wait_until fd deadline cs s' in
      if ltb c.0 deadline then if readable fd s'.kernel then (c.0, s') else later else (deadline, s)

  -- `process`, up to the return of `epoll_wait`
  unfoldable pub wait_for_events : EventFd K → ℕ → List (ℕ × Call) → Shared K → ℕ × Shared K
  wait_for_events fd deadline calls s =
      let r = wait_until fd deadline calls (record s { processing = true }) in
      (r.0, record r.1 { processing = false })
