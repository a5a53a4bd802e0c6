-- ===== src/Io/Timer/Fire.antt =====
-- TimerEventManager::process: which timers are handled, and what is left.
use hulatang_io.Base.{
  ◌==◌, ℕ, zero, suc, ◌+◌, ◌<◌, ◌≡◌, sym, refl, ap, ◌∙◌, List, [], ◌∷◌, ◌++◌, leb, length, arith,
  dec_lt, dec_le, lt→ltb, ge→ltb, le→leb, gt→leb, if◌then◌else◌, Succeeds,
}
use hulatang_io.Io.Timer.{
  Timer, infinite, Kind, one_shot, repeating, Pass, add_at, add_in, add_each, renew, handle,
  process_from, process,
}
use hulatang_io.Io.Timer.Set.{Ordered, add_at-Ordered}

-- The timers whose time has come.
unfoldable pub due : ℕ → List Timer → List Timer
due now [] = []
due now (t ∷ s) = let rest = due now s in if leb t.timeout now then t ∷ rest else rest

-- A repeating timer has an interval.
abbrev pub Renews : Kind → Type 0
Renews one_shot = Unit
Renews (repeating interval n) = 0 < interval

abbrev pub RenewAll : List Timer → Type 0
RenewAll [] = Unit
RenewAll (t ∷ s) = Renews t.kind × RenewAll s

-- All timers are later than `now`.
abbrev pub Later : ℕ → List Timer → Type 0
Later now [] = Unit
Later now (t ∷ s) = (now < t.timeout) × Renews t.kind × Later now s

add_at-Later :
    (now k : ℕ) (t : Timer) (s : List Timer)
    → now < t.timeout
    → Renews t.kind
    → Later now s
    → Later now (add_at k t s)
unfolding add_at
add_at-Later now k t [] h r l = (h, r, tt)
add_at-Later now k t (u ∷ s) h r l = elim (dec_lt u.timeout k) [
  | yes lt ↦ rw (lt→ltb u.timeout k lt) (l.0, l.1, add_at-Later now k t s h r l.2)
  | no ge ↦ rw (ge→ltb u.timeout k (omega arith)) (elim (dec_lt k u.timeout) [
    | yes lt ↦ rw (lt→ltb k u.timeout lt) (h, r, l)
    | no eq ↦ rw (ge→ltb k u.timeout (omega arith)) l
  ])
]

add_at-RenewAll :
    (k : ℕ) (t : Timer) (s : List Timer) → Renews t.kind → RenewAll s → RenewAll (add_at k t s)
unfolding add_at
add_at-RenewAll k t [] r l = (r, tt)
add_at-RenewAll k t (u ∷ s) r l = elim (dec_lt u.timeout k) [
  | yes lt ↦ rw (lt→ltb u.timeout k lt) (l.0, add_at-RenewAll k t s r l.1)
  | no ge ↦ rw (ge→ltb u.timeout k (omega arith)) (elim (dec_lt k u.timeout) [
    | yes lt ↦ rw (lt→ltb k u.timeout lt) (r, l)
    | no eq ↦ rw (ge→ltb k u.timeout (omega arith)) l
  ])
]

due-add_at :
    (now k : ℕ) (t : Timer) (s : List Timer) → now < t.timeout → due now (add_at k t s) ≡ due now s
unfolding add_at due
due-add_at now k t [] h = rw (gt→leb t.timeout now h) refl
due-add_at now k t (u ∷ s) h = elim (dec_lt u.timeout k) [
  | yes lt ↦
      rw (lt→ltb u.timeout k lt)
        (ap (λ r. if leb u.timeout now then u ∷ r else r) (due-add_at now k t s h))
  | no ge ↦ rw (ge→ltb u.timeout k (omega arith)) (elim (dec_lt k u.timeout) [
    | yes lt ↦ rw (lt→ltb k u.timeout lt) (rw (gt→leb t.timeout now h) refl)
    | no eq ↦ rw (ge→ltb k u.timeout (omega arith)) refl
  ])
]

-- Nothing is due in an ordered set that begins after `now`.
due-Ordered : (now lo : ℕ) (s : List Timer) → now < lo → Ordered lo s → due now s ≡ []
unfolding due
due-Ordered now lo [] h o = refl
due-Ordered now lo (t ∷ s) h o =
    rw (gt→leb t.timeout now (omega arith)) (due-Ordered now (suc t.timeout) s (omega arith) o.1)

Ordered-Later : (now lo : ℕ) (s : List Timer) → now < lo → Ordered lo s → RenewAll s → Later now s
Ordered-Later now lo [] h o r = tt
Ordered-Later now lo (t ∷ s) h o r =
    (omega arith, r.0, Ordered-Later now (suc t.timeout) s (omega arith) o.1 r.1)

append-Later : (now : ℕ) (s t : List Timer) → Later now s → Later now t → Later now (s ++ t)
append-Later now [] t l m = m
append-Later now (u ∷ s) t l m = (l.0, l.1, append-Later now s t l.2 m)

-- What holds between two rounds of the loop, the timers of `d` being due.
abbrev pub Going : ℕ → ℕ → List Timer → Pass → Type 0
Going now lo d p = Later now p.before × Ordered lo p.rest × RenewAll p.rest × (due now p.rest ≡ d)

add_in-Going :
    (now lo : ℕ) (d : List Timer) (t : Timer) (before rest : List Timer)
    → now < t.timeout
    → Renews t.kind
    → Going now lo d (record { before = before; rest = rest })
    → Going now lo d (add_in t.timeout t (record { before = before; rest = rest }))
unfolding add_in due
add_in-Going now lo d t before [] h r g =
    (add_at-Later now t.timeout t before h r g.0, g.1, g.2, g.3)
add_in-Going now lo d t before (u ∷ s) h r g = elim (dec_lt u.timeout t.timeout) [
  | yes lt ↦ rw (lt→ltb u.timeout t.timeout lt) (
    g.0,
    (g.1.0, add_at-Ordered (suc u.timeout) t s (omega arith) g.1.1),
    (g.2.0, add_at-RenewAll t.timeout t s r g.2.1),
    ap (λ r. if leb u.timeout now then u ∷ r else r) (due-add_at now t.timeout t s h) ∙ g.3,
  )
  | no ge ↦ rw (ge→ltb u.timeout t.timeout (omega arith)) (elim (dec_lt t.timeout u.timeout) [
    | yes lt ↦
        rw (lt→ltb t.timeout u.timeout lt)
          (add_at-Later now t.timeout t before h r g.0, g.1, g.2, g.3)
    | no eq ↦ rw (ge→ltb t.timeout u.timeout (omega arith)) g
  ])
]

add_each-Going :
    (now lo : ℕ) (d ts : List Timer) (p : Pass)
    → Later now ts
    → Going now lo d p
    → Going now lo d (add_each ts p)
unfolding add_each
add_each-Going now lo d [] p l g = g
add_each-Going now lo d (t ∷ ts) p l g =
    add_each-Going now lo d ts (add_in t.timeout t p) l.2
      (add_in-Going now lo d t p.before p.rest l.0 l.1 g)

-- The timer that was handled goes behind the iterator, with its new timeout.
add_in-earlier :
    (k : ℕ) (t : Timer) (before rest : List Timer)
    → Ordered (suc k) rest
    → add_in k t (record { before = before; rest = rest })
      ≡ record { before = add_at k t before; rest = rest }
unfolding add_in
add_in-earlier k t before [] o = refl
add_in-earlier k t before (u ∷ s) o =
    rw (ge→ltb u.timeout k (omega arith)) (rw (lt→ltb k u.timeout o.0) refl)

renew-Going :
    (now : ℕ) (d : List Timer) (t : Timer) (kind : Kind) (p : Pass)
    → t.kind ≡ kind
    → Renews kind
    → Going now (suc t.timeout) d p
    → Going now (suc t.timeout) d (renew now t p)
unfolding renew
renew-Going now d t one_shot p e r g = rw e g
renew-Going now d t (repeating interval zero) p e r g = rw e g
renew-Going now d t (repeating interval (suc n)) p e r g =
    let renewed : Timer = record t {
      timeout = now + interval;
      kind = repeating interval (if suc n == infinite then suc n else n);
    } in
    rw (e, add_in-earlier t.timeout renewed p.before p.rest g.1)
      (add_at-Later now t.timeout renewed p.before (omega arith) r g.0, g.1, g.2, g.3)

module _ (added : Timer → List Timer) (now : ℕ) where
  handle-Going :
      (d : List Timer) (t : Timer) (p : Pass)
      → Later now (added t)
      → Renews t.kind
      → Going now (suc t.timeout) d p
      → Going now (suc t.timeout) d (handle added now t p)
  unfolding handle
  handle-Going d t p l r g =
      renew-Going now d t t.kind (add_each (added t) p) refl r
        (add_each-Going now (suc t.timeout) d (added t) p l g)

  process-Going :
      (fuel lo : ℕ) (d before rest : List Timer)
      → ((t : Timer) → Later now (added t))
      → length d < fuel
      → Going now lo d (record { before = before; rest = rest })
      → Succeeds
          (process_from added fuel now (record { before = before; rest = rest }))
          λ r. (r.0 ≡ d) × Later now r.1
  unfolding process_from
  process-Going zero lo d before rest l h g = absurd (omega arith)
  process-Going (suc fuel) lo d before [] l h g =
      unfold process_from due in (([], before), refl, (g.3, g.0))
  process-Going (suc fuel) lo d before (t ∷ s) l h g = elim (dec_le t.timeout now) [
    | no gt ↦
        let none_due = due-Ordered now (suc t.timeout) s (omega arith) g.1.1 in
        let empty : due now (t ∷ s) ≡ [] =
          unfold due in rw (gt→leb t.timeout now (omega arith)) none_due in
        let later : Later now (t ∷ s) =
          (omega arith, g.2.0, Ordered-Later now (suc t.timeout) s (omega arith) g.1.1 g.2.1) in
        (
          ([], before ++ t ∷ s),
          rw (gt→leb t.timeout now (omega arith)) refl,
          (sym empty ∙ g.3, append-Later now before (t ∷ s) g.0 later),
        )
    | yes le ↦
        let first : due now (t ∷ s) ≡ t ∷ due now s =
          unfold due in rw (le→leb t.timeout now le) refl in
        let shorter : length d ≡ suc (length (due now s)) = ap length (sym g.3 ∙ first) in
        let p = handle added now t (record { before = before; rest = s }) in
        let going =
          handle-Going (due now s) t (record { before = before; rest = s }) (l t) g.2.0
            (g.0, g.1.1, g.2.1, refl) in
        let r =
          process-Going fuel (suc t.timeout) (due now s) p.before p.rest l (omega arith) going in
        (
          (t ∷ r.0.0, r.0.1),
          rw (le→leb t.timeout now le) (rw r.1 refl),
          (ap (λ ts. t ∷ ts) r.2.0 ∙ sym first ∙ g.3, r.2.1),
        )
  ]

-- Let the timers stand in order, the repeating ones have an interval, and the handlers add later
-- timers only. Then `process` comes to an end; it handles the timers whose time has come, each once
-- and in the order of their times; and all timers that are left are later than now.
pub process-due :
    (added : Timer → List Timer) (now lo : ℕ) (s : List Timer)
    → ((t : Timer) → Later now (added t))
    → Ordered lo s
    → RenewAll s
    → Succeeds
        (process added (suc (length (due now s))) now s)
        λ r. (r.0 ≡ due now s) × Later now r.1
process-due added now lo s l o r =
    process-Going added now (suc (length (due now s))) lo (due now s) [] s l (omega arith)
      (tt, o, r, refl)
