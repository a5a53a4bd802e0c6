-- ===== src/Io/Timer/Repeat.antt =====
-- RepeatTimerEventWatcher::handle: what the change of the timeout does to the set.
use hulatang_io.Base.{
  ℕ, suc, ◌+◌, ◌<◌, ◌≤◌, ◌≡◌, refl, [], ◌∷◌, arith, ◌==◌, if◌then◌else◌, le→leb, gt→leb, ge→ltb,
  lt→ltb, ok, ap, ◌∙◌, ◌>>=◌,
}
use hulatang_io.Io.Timer.{
  Timer, infinite, repeating, add_at, add_in, add_each, renew, handle, process_from, process,
}

-- a repeating timer
abbrev pub repeater : ℕ → ℕ → ℕ → ℕ → Timer
repeater address timeout interval n = record {
  address = address;
  timeout = timeout;
  kind = repeating interval n;
}

-- how often a timer repeats after the time that it is handled
abbrev pub one_less : ℕ → ℕ
one_less n = if suc n == infinite then suc n else n

handle-repeater :
    (now interval address first n : ℕ) (u : Timer)
    → first < u.timeout
    → handle
        (λ t. [])
        now
        (repeater address first interval (suc n))
        (record { before = []; rest = u ∷ [] })
      ≡ record {
        before = repeater address (now + interval) interval (one_less n) ∷ [];
        rest = u ∷ [];
      }
unfolding handle add_each renew add_in add_at
handle-repeater now interval address first n u h =
    rw (ge→ltb u.timeout first (omega arith)) (rw (lt→ltb first u.timeout h) refl)

-- Let a repeating timer be due with times to go, and let the one other timer come later than now,
-- and the handlers add none. Then `process` handles the repeating timer and sets it to its next
-- time, but leaves it before the other: at every time from that of the other up to the next of the
-- repeating one, `process` handles nothing, though the other is due.
pub process-starved :
    (now later interval address first n : ℕ) (u : Timer)
    → first ≤ now
    → now < u.timeout
    → u.timeout ≤ later
    → later < now + interval
    → (process (λ t. []) 2 now (repeater address first interval (suc n) ∷ u ∷ [])
        ≡ ok (
          repeater address first interval (suc n) ∷ [],
          repeater address (now + interval) interval (one_less n) ∷ u ∷ [],
        ))
      × (process
            (λ t. [])
            1
            later
            (repeater address (now + interval) interval (one_less n) ∷ u ∷ [])
          ≡ ok ([], repeater address (now + interval) interval (one_less n) ∷ u ∷ []))
unfolding process_from
process-starved now later interval address first n u h1 h2 h3 h4 = (
  rw (le→leb first now h1) (
      ap
        (λ p. process_from (λ t. []) 1 now p >>= λ r.
          ok (repeater address first interval (suc n) ∷ r.0, r.1))
        (handle-repeater now interval address first n u (omega arith))
      ∙ rw (gt→leb u.timeout now h2) refl),
  rw (gt→leb (now + interval) later h4) refl,
)
