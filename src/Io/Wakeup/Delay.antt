-- ===== src/Io/Wakeup/Delay.antt =====
-- How long the calls of other threads wait.
use hulatang_io.Base.{
  ℕ, suc, ◌+◌, ◌≡◌, refl, sym, ap, ◌∙◌, List, [], ◌∷◌, ◌++◌, append_assoc, append-nil, Bool, true,
  false, not, ◌==◌, ltb, if◌then◌else◌, Succeeds, arith,
}
use hulatang_io.Io.Status.{Status, stopping}
use hulatang_io.Io.Timer.{Timer, process_from, is_idle}
use hulatang_io.Io.Loop.{
  Loop, loop_is_idle, maximum_blocking_time, run_once, calculation_blocktime, Event, blocked,
  task_run, idle_run, each,
}
use hulatang_io.Io.Wakeup.{
  EventFd, readable, Shared, Call, queue_call, stop_call, linux_wakeup, epoll_wakeup, queue_in_loop,
  stop_loop, wait_until, wait_for_events,
}

-- The tasks of the calls up to the first that comes too late, and whether one of these stops the loop.
abbrev pub queued : ℕ → List (ℕ × Call) → List ℕ
queued deadline [] = []
queued deadline (c ∷ cs) =
    let rest = queued deadline cs in
    if ltb c.0 deadline then elim c.1 [ queue_call task ↦ task ∷ rest | stop_call ↦ rest ] else []

abbrev pub status_after : ℕ → List (ℕ × Call) → Status → Status
status_after deadline [] s = s
status_after deadline (c ∷ cs) s =
    let queues = status_after deadline cs s in
    let stops = status_after deadline cs stopping in
    if ltb c.0 deadline then elim c.1 [ queue_call task ↦ queues | stop_call ↦ stops ] else s

-- What a wait ends in that lasts to its end.
abbrev pub WaitsOut : (K : Type 0) → ℕ → List (ℕ × Call) → Shared K → ℕ × Shared K → Type 0
WaitsOut K deadline calls s r =
    (r.0 ≡ deadline)
    × (r.1.loop ≡ record s.loop { tasks = s.loop.tasks ++ queued deadline calls })
    × (r.1.status ≡ status_after deadline calls s.status)

-- A wakeup that changes nothing but what does not make the descriptor readable.
abbrev Quiet : (K : Type 0) → EventFd K → (Shared K → Shared K) → Type 0
Quiet K fd wakeup =
    (s : Shared K)
    → ((wakeup s).loop ≡ s.loop)
      × ((wakeup s).status ≡ s.status)
      × (readable fd (wakeup s).kernel ≡ readable fd s.kernel)

linux_wakeup-Quiet : (K : Type 0) (fd : EventFd K) → Quiet K fd (linux_wakeup fd)
unfolding linux_wakeup
linux_wakeup-Quiet K fd s = processing s.processing
  where
    adds_nothing : fd.count (fd.eventfd_write 0 s.kernel) ≡ fd.count s.kernel
    adds_nothing = omega (arith, fd.write_adds 0 s.kernel)

    processing :
        (b : Bool)
        → let s' : Shared K =
            (if b then record s { kernel = fd.eventfd_write 0 s.kernel } else s) in
          (s'.loop ≡ s.loop)
          × (s'.status ≡ s.status)
          × (readable fd s'.kernel ≡ readable fd s.kernel)
    processing true = (refl, refl, ap (λ n. not (n == 0)) adds_nothing)
    processing false = (refl, refl, refl)

epoll_wakeup-Quiet : (K : Type 0) (fd : EventFd K) → Quiet K fd epoll_wakeup
unfolding epoll_wakeup
epoll_wakeup-Quiet K fd s = (refl, refl, refl)

-- One call, in time or too late.
wait_one :
    (K : Type 0) (wakeup : Shared K → Shared K) (fd : EventFd K) (deadline t : ℕ) (call : Call)
    (cs : List (ℕ × Call)) (s : Shared K)
    → Quiet K fd wakeup
    → readable fd s.kernel ≡ false
    → ((s' : Shared K)
        → readable fd s'.kernel ≡ false
        → WaitsOut K deadline cs s' (wait_until K wakeup fd deadline cs s'))
    → WaitsOut K deadline ((t, call) ∷ cs) s (wait_until K wakeup fd deadline ((t, call) ∷ cs) s)
unfolding wait_until queue_in_loop stop_loop
wait_one K wakeup fd deadline t call cs s quiet h next = timely (ltb t deadline) refl call
  where
    timely :
        (b : Bool)
        → ltb t deadline ≡ b
        → (call' : Call)
        → WaitsOut K deadline
            ((t, call') ∷ cs)
            s
            (wait_until K wakeup fd deadline ((t, call') ∷ cs) s)
    timely false e call' =
        rw e (refl, ap (λ ts. record s.loop { tasks = ts }) (sym (append-nil s.loop.tasks)), refl)
    timely true e (queue_call task) =
        let s0 : Shared K = record s {
          loop = record s.loop { tasks = s.loop.tasks ++ task ∷ [] };
        } in
        let q = quiet s0 in
        let dark : readable fd (wakeup s0).kernel ≡ false = q.2 ∙ h in
        let n = next (wakeup s0) dark in
        rw (e, dark)
          (
            n.0,
            n.1
                ∙ ap (λ (l : Loop). record l { tasks = l.tasks ++ queued deadline cs }) q.0
                ∙ ap (λ ts. record s.loop { tasks = ts })
                    (append_assoc s.loop.tasks (task ∷ []) (queued deadline cs)),
            n.2 ∙ ap (λ st. status_after deadline cs st) q.1,
          )
    timely true e stop_call =
        let s0 : Shared K = record s { status = stopping } in
        let q = quiet s0 in
        let dark : readable fd (wakeup s0).kernel ≡ false = q.2 ∙ h in
        let n = next (wakeup s0) dark in
        rw (e, dark)
          (
            n.0,
            n.1 ∙ ap (λ (l : Loop). record l { tasks = l.tasks ++ queued deadline cs }) q.0,
            n.2 ∙ ap (λ st. status_after deadline cs st) q.1,
          )

wait_until-WaitsOut :
    (K : Type 0) (wakeup : Shared K → Shared K) (fd : EventFd K) (deadline : ℕ)
    (cs : List (ℕ × Call)) (s : Shared K)
    → Quiet K fd wakeup
    → readable fd s.kernel ≡ false
    → WaitsOut K deadline cs s (wait_until K wakeup fd deadline cs s)
unfolding wait_until
wait_until-WaitsOut K wakeup fd deadline [] s quiet h =
    (refl, ap (λ ts. record s.loop { tasks = ts }) (sym (append-nil s.loop.tasks)), refl)
wait_until-WaitsOut K wakeup fd deadline ((t, call) ∷ cs) s quiet h =
    wait_one K wakeup fd deadline t call cs s quiet h
      λ s' h'. wait_until-WaitsOut K wakeup fd deadline cs s' quiet h'

wait_for_events-WaitsOut :
    (K : Type 0) (wakeup : Shared K → Shared K) (fd : EventFd K) (deadline : ℕ)
    (cs : List (ℕ × Call)) (s : Shared K)
    → Quiet K fd wakeup
    → readable fd s.kernel ≡ false
    → WaitsOut K deadline cs s (wait_for_events K wakeup fd deadline cs s)
unfolding wait_for_events
wait_for_events-WaitsOut K wakeup fd deadline cs s quiet h =
    wait_until-WaitsOut K wakeup fd deadline cs (record s { processing = true }) quiet h

-- A loop whose eventfd cannot be read waits as long as it meant to, whatever other threads queue in it and when they
-- stop it, with the wakeup of EPollFdEventManager, and it would with that of LinuxFdEventManager: behind the wait it
-- has the tasks that were queued in time, in order, and is stopping where it was stopped in time.
pub wait_for_events_lem :
    (K : Type 0) (fd : EventFd K) (deadline : ℕ) (cs : List (ℕ × Call)) (s : Shared K)
    → readable fd s.kernel ≡ false
    → WaitsOut K deadline cs s (wait_for_events K epoll_wakeup fd deadline cs s)
      × WaitsOut K deadline cs s (wait_for_events K (linux_wakeup fd) fd deadline cs s)
wait_for_events_lem K fd deadline cs s h = (
  wait_for_events-WaitsOut K epoll_wakeup fd deadline cs s (epoll_wakeup-Quiet K fd) h,
  wait_for_events-WaitsOut K (linux_wakeup fd) fd deadline cs s (linux_wakeup-Quiet K fd) h,
)

-- What a round runs behind its wait: the tasks, or the idle tasks where there are none.
abbrev pub served : List ℕ → List ℕ → List Event
served [] idle = each idle_run idle
served (t ∷ ts) idle = each task_run (t ∷ ts)

-- The wait of a round that begins at a time.
abbrev pub ten_seconds :
    (K : Type 0) → EventFd K → ℕ → List (ℕ × Call) → Shared K → Loop → ℕ × Shared K
ten_seconds K fd clock cs s l =
    wait_for_events K epoll_wakeup fd (clock + maximum_blocking_time) cs (record s { loop = l })

round-served :
    (added : Timer → List Timer) (fuel fuel' clock1 clock2 clock3 : ℕ) (io : Loop → Loop)
    (spawns : ℕ → List ℕ) (l : Loop) (ts : List ℕ)
    → l.timers ≡ []
    → l.tasks ≡ []
    → io (record l { now = clock1 }) ≡ record l { now = clock1; tasks = ts }
    → Succeeds
        (run_once added fuel (suc fuel') clock1 clock2 clock3 io spawns l)
        λ r. r.0 ≡ blocked maximum_blocking_time ∷ served ts l.idle
unfolding run_once calculation_blocktime process_from
round-served added fuel fuel' clock1 clock2 clock3 io spawns l [] e e' waited =
    let idle : loop_is_idle (record l { now = clock1 }) ≡ true =
      unfold loop_is_idle is_idle in rw (e, e') refl in
    rw (idle, waited, e) (unfold loop_is_idle is_idle in (_, refl, refl))
round-served added fuel fuel' clock1 clock2 clock3 io spawns l (t ∷ ts) e e' waited =
    let idle : loop_is_idle (record l { now = clock1 }) ≡ true =
      unfold loop_is_idle is_idle in rw (e, e') refl in
    rw (idle, waited, e) (unfold loop_is_idle is_idle in (_, refl, refl))

-- A round of a loop that has no timers and no tasks, and whose eventfd cannot be read: whatever other threads queue in
-- it meanwhile, and whether and when they stop it, where no other descriptor becomes ready, the wait ends ten seconds after the round began and no sooner, and
-- the round then runs the tasks that were queued in these ten seconds, in order, or the idle tasks where none was.
pub run_once-wait_for_events :
    (K : Type 0) (fd : EventFd K) (added : Timer → List Timer) (fuel fuel' clock1 clock2 clock3 : ℕ)
    (spawns : ℕ → List ℕ) (cs : List (ℕ × Call)) (s : Shared K)
    → s.loop.timers ≡ []
    → s.loop.tasks ≡ []
    → readable fd s.kernel ≡ false
    → ((ten_seconds K fd clock1 cs s (record s.loop { now = clock1 })).0
        ≡ clock1 + maximum_blocking_time)
      × Succeeds
          (run_once added fuel
            (suc fuel')
            clock1
            clock2
            clock3
            (λ l. (ten_seconds K fd clock1 cs s l).1.loop)
            spawns
            s.loop)
          λ r.
            r.0
            ≡ blocked maximum_blocking_time
              ∷ served (queued (clock1 + maximum_blocking_time) cs) s.loop.idle
run_once-wait_for_events K fd added fuel fuel' clock1 clock2 clock3 spawns cs s e e' h =
    let start : Loop = record s.loop { now = clock1 } in
    let waited =
      wait_for_events-WaitsOut K epoll_wakeup fd (clock1 + maximum_blocking_time) cs
        (record s { loop = start }) (epoll_wakeup-Quiet K fd) h in
    let ts = queued (clock1 + maximum_blocking_time) cs in
    (
      waited.0,
      round-served added fuel fuel' clock1 clock2 clock3
          (λ l. (ten_seconds K fd clock1 cs s l).1.loop) spawns s.loop ts e e'
          (waited.1 ∙ ap (λ old. record s.loop { now = clock1; tasks = old ++ ts }) e'),
    )
