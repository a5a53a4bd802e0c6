-- ===== src/Io/Timer/Set.antt =====
-- TimerEventManager: the set as it is searched, added to and taken from.
use hulatang_io.Base.{
  ℕ, suc, ◌<◌, ◌≤◌, ◌≡◌, ◌≢◌, sym, refl, ap, ◌∙◌, List, [], ◌∷◌, Bool, true, false, ◌==◌, ◌||◌,
  length, arith, dec_lt, lt→ltb, ge→ltb, ne→==, eq→==,
}
use hulatang_io.Io.Timer.{Timer, add_at, add, cancel}

-- Whether a timer has this timeout.
unfoldable pub has_timeout : ℕ → List Timer → Bool
has_timeout k [] = false
has_timeout k (u ∷ s) = (k == u.timeout) || has_timeout k s

-- The timeouts go up, from `lo` on.
abbrev pub Ordered : ℕ → List Timer → Type 0
Ordered lo [] = Unit
Ordered lo (t ∷ s) = (lo ≤ t.timeout) × Ordered (suc t.timeout) s

pub add_at-Ordered :
    (lo : ℕ) (t : Timer) (s : List Timer)
    → lo ≤ t.timeout
    → Ordered lo s
    → Ordered lo (add_at t.timeout t s)
unfolding add_at
add_at-Ordered lo t [] h o = (h, tt)
add_at-Ordered lo t (u ∷ s) h o = elim (dec_lt u.timeout t.timeout) [
  | yes lt ↦
      rw (lt→ltb u.timeout t.timeout lt) (o.0, add_at-Ordered (suc u.timeout) t s (omega arith) o.1)
  | no ge ↦ rw (ge→ltb u.timeout t.timeout (omega arith)) (elim (dec_lt t.timeout u.timeout) [
    | yes lt ↦ rw (lt→ltb t.timeout u.timeout lt) (h, (lt, o.1))
    | no eq ↦ rw (ge→ltb t.timeout u.timeout (omega arith)) o
  ])
]

eq_self : (k : ℕ) → (k == k) ≡ true
eq_self k = eq→== k k refl

-- A timeout below an ordered set is free in it.
has_timeout-below : (k lo : ℕ) (s : List Timer) → k < lo → Ordered lo s → has_timeout k s ≡ false
unfolding has_timeout
has_timeout-below k lo [] h o = refl
has_timeout-below k lo (u ∷ s) h o =
    rw (ne→== k u.timeout (λ e. absurd (omega arith)))
      (has_timeout-below k (suc u.timeout) s (omega arith) o.1)

has_timeout-ne :
    (k : ℕ) (u : Timer) (s : List Timer) → k ≢ u.timeout → has_timeout k (u ∷ s) ≡ has_timeout k s
unfolding has_timeout
has_timeout-ne k u s h = rw (ne→== k u.timeout h) refl

has_timeout-eq : (k : ℕ) (u : Timer) (s : List Timer) → k ≡ u.timeout → has_timeout k (u ∷ s) ≡ true
unfolding has_timeout
has_timeout-eq k u s h = rw (eq→== k u.timeout h) refl

add-taken :
    (lo : ℕ) (t : Timer) (s : List Timer)
    → Ordered lo s
    → has_timeout t.timeout s ≡ true
    → add t s ≡ s
unfolding add_at has_timeout
add-taken lo t [] o e = absurd cc
add-taken lo t (u ∷ s) o e = elim (dec_lt u.timeout t.timeout) [
  | yes lt ↦
      let same = has_timeout-ne t.timeout u s (λ e. absurd (omega arith)) in
      rw (lt→ltb u.timeout t.timeout lt)
        (ap (λ r. u ∷ r) (add-taken (suc u.timeout) t s o.1 (sym same ∙ e)))
  | no ge ↦ rw (ge→ltb u.timeout t.timeout (omega arith)) (elim (dec_lt t.timeout u.timeout) [
    | yes lt ↦
        let same = has_timeout-ne t.timeout u s (λ e. absurd (omega arith)) in
        let free = has_timeout-below t.timeout (suc u.timeout) s (omega arith) o.1 in
        let both : false ≡ true = sym free ∙ sym same ∙ e in absurd cc
    | no eq ↦ rw (ge→ltb t.timeout u.timeout (omega arith)) refl
  ])
]

add-free :
    (t : Timer) (s : List Timer)
    → has_timeout t.timeout s ≡ false
    → (length (add t s) ≡ suc (length s))
      × (has_timeout t.timeout (add t s) ≡ true)
      × (cancel t (add t s) ≡ s)
unfolding add_at has_timeout cancel
add-free t [] e =
    (refl, rw (eq_self t.timeout) refl, rw (ge→ltb t.timeout t.timeout (omega arith)) refl)
add-free t (u ∷ s) e = elim (dec_lt u.timeout t.timeout) [
  | yes lt ↦
      let same : (r : List Timer) → has_timeout t.timeout (u ∷ r) ≡ has_timeout t.timeout r =
        λ r. has_timeout-ne t.timeout u r (λ e. absurd (omega arith)) in
      let rest = add-free t s (sym (same s) ∙ e) in
      rw (lt→ltb u.timeout t.timeout lt) (
        ap suc rest.0,
        same (add t s) ∙ rest.1,
        rw (lt→ltb u.timeout t.timeout lt) (ap (λ r. u ∷ r) rest.2),
      )
  | no ge ↦ rw (ge→ltb u.timeout t.timeout (omega arith)) (elim (dec_lt t.timeout u.timeout) [
    | yes lt ↦
        rw (lt→ltb t.timeout u.timeout lt)
          (refl, rw (eq_self t.timeout) refl, rw (ge→ltb t.timeout t.timeout (omega arith)) refl)
    | no eq ↦
        let taken = has_timeout-eq t.timeout u s (omega arith) in
        let both : true ≡ false = sym taken ∙ e in absurd cc
  ])
]

-- Adding a timer to an ordered set keeps the set ordered; where its timeout is taken the timer is
-- dropped, and where it is free the set is one longer, has that timeout, and is the same set again
-- when the timer is cancelled.
pub add-cancel :
    (lo : ℕ) (t : Timer) (s : List Timer)
    → lo ≤ t.timeout
    → Ordered lo s
    → Ordered lo (add t s)
      × (has_timeout t.timeout s ≡ true → add t s ≡ s)
      × (has_timeout t.timeout s ≡ false
          → (length (add t s) ≡ suc (length s))
            × (has_timeout t.timeout (add t s) ≡ true)
            × (cancel t (add t s) ≡ s))
add-cancel lo t s h o = (add_at-Ordered lo t s h o, add-taken lo t s o, add-free t s)
