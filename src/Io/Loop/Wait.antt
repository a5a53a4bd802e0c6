-- ===== src/Io/Loop/Wait.antt =====
-- EventLoop::calculationBlocktime: how long the loop waits for its descriptors.
use hulatang_io.Base.{
  ℕ, suc, ◌+◌, ◌-◌, ◌≤◌, ◌≡◌, refl, ◌⊎◌, inl, inr, List, ◌∷◌, ◌++◌, length, Bool, ◌&&◌, true, false,
  arith, dec_lt, lt→ltb, le→leb, Bool-cases, Succeeds,
}
use hulatang_io.Io.Timer.{Timer, ℤ, pos, negsuc, next_trigger_time, is_idle}
use hulatang_io.Io.Timer.Set.{Ordered}
use hulatang_io.Io.Timer.Fire.{due, Later, RenewAll, process-due}
use hulatang_io.Io.Loop.{
  Loop, maximum_blocking_time, no_tasks, loop_is_idle, bounded, wait_for, late_timers,
  calculation_blocktime,
}

-- What is promised of a time to wait for a loop.
abbrev pub Fits : Loop → ℕ → Type 0
Fits l n =
    (n ≤ maximum_blocking_time)
    × (no_tasks l.tasks ≡ false → n ≡ 0)
    × (no_tasks l.tasks ≡ true → 1000 ≤ n)

bounded-bounds : (t : ℤ) → (1000 ≤ bounded t) × (bounded t ≤ maximum_blocking_time)
bounded-bounds (negsuc n) = (omega arith, omega arith)
bounded-bounds (pos n) = (ground arith, ground arith)

bounded-soon :
    (now timeout : ℕ)
    → now ≤ timeout
    → (bounded (pos (timeout - now)) ≤ 1000) ⊎ (now + bounded (pos (timeout - now)) ≤ timeout)
bounded-soon now timeout h = elim (dec_lt (timeout - now) 1000) [
  | yes soon ↦ inl (rw (lt→ltb (timeout - now) 1000 soon) (omega arith))
  | no far ↦ inr (ground arith)
]

wait_for-Fits : (t : ℤ) (l : Loop) → Fits l (wait_for t l)
unfolding wait_for
wait_for-Fits t l = elim (Bool-cases (no_tasks l.tasks)) [
  | inr some_wait ↦ rw some_wait (omega arith, λ e. refl, λ e. absurd cc)
  | inl none_wait ↦ rw none_wait (elim (Bool-cases (loop_is_idle l)) [
    | inl idle ↦ rw idle (omega arith, λ e. absurd cc, λ e. omega arith)
    | inr busy ↦ let b = bounded-bounds t in rw busy (b.1, λ e. absurd cc, λ e. b.0)
  ])
]

both-right : (a b : Bool) → (a && b) ≡ true → b ≡ true
both-right true b e = e
both-right false b e = absurd cc

idle-Fits : (l : Loop) → loop_is_idle l ≡ true → Fits l maximum_blocking_time
unfolding loop_is_idle
idle-Fits l e =
    let none_wait = both-right (is_idle l.timers) (no_tasks l.tasks) e in
    rw none_wait (omega arith, λ e. absurd cc, λ e. omega arith)

next-cases : (t : ℤ) → ((n : ℕ) × (t ≡ pos n)) ⊎ ((n : ℕ) × (t ≡ negsuc n))
next-cases (pos n) = inl (n, refl)
next-cases (negsuc n) = inr (n, refl)

-- Let the timers stand in order, the repeating ones have an interval, and the handlers add later
-- timers only. Then the time to wait is found, and is at most 10 seconds; it is 0 while a task
-- waits, and at least a millisecond otherwise.
pub calculation_blocktime_lem :
    (added : Timer → List Timer) (clock lo : ℕ) (l : Loop)
    → ((t : Timer) → Later l.now (added t))
    → Ordered lo l.timers
    → RenewAll l.timers
    → Succeeds
        (calculation_blocktime added (suc (length (due l.now l.timers))) clock l)
        λ r. Fits r.1 r.0
unfolding calculation_blocktime late_timers
calculation_blocktime_lem added clock lo l later o r = elim (Bool-cases (loop_is_idle l)) [
  | inl idle ↦ rw idle ((maximum_blocking_time, l), refl, idle-Fits l idle)
  | inr busy ↦ rw busy (elim (next-cases (next_trigger_time l.now l.timers)) [
    | inl early ↦ rw early.1 ((wait_for (pos early.0) l, l), refl, wait_for-Fits (pos early.0) l)
    | inr late ↦
        let handled = process-due added l.now lo l.timers later o r in
        let l' : Loop = record l {
          timers = handled.0.1;
          now = clock;
          handled = l.handled ++ handled.0.0;
        } in
        let next = next_trigger_time clock handled.0.1 in
        rw late.1 ((wait_for next l', l'), rw handled.1 refl, wait_for-Fits next l')
  ])
]

-- While the first timer is not late and no task waits, the loop waits for a millisecond at most, or
-- no longer than to the time of the first timer.
pub calculation_blocktime-wakes :
    (added : Timer → List Timer) (fuel clock : ℕ) (l : Loop) (t : Timer) (s : List Timer)
    → l.timers ≡ t ∷ s
    → no_tasks l.tasks ≡ true
    → l.now ≤ t.timeout
    → Succeeds
        (calculation_blocktime added fuel clock l)
        λ r. (r.1 ≡ l) × ((r.0 ≤ 1000) ⊎ (l.now + r.0 ≤ t.timeout))
unfolding calculation_blocktime
calculation_blocktime-wakes added fuel clock l t s e none_wait h =
    let busy : loop_is_idle l ≡ false = unfold loop_is_idle is_idle in rw e refl in
    let early : next_trigger_time l.now l.timers ≡ pos (t.timeout - l.now) =
      unfold next_trigger_time in rw e (rw (le→leb l.now t.timeout h) refl) in
    let waits : wait_for (pos (t.timeout - l.now)) l ≡ bounded (pos (t.timeout - l.now)) =
      unfold wait_for in rw none_wait (rw busy refl) in
    rw busy (
      rw early (
        (bounded (pos (t.timeout - l.now)), l),
        rw waits refl,
        (refl, bounded-soon l.now t.timeout h),
      ))
