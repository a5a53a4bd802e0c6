-- ===== src/Io/FdTable.antt =====
-- hulatang/io/FdEventManager.cpp: the table of the channels by file descriptor. A channel is its
-- address.
use hulatang_io.Base.{
  ℕ, zero, suc, ◌-◌, ◌*◌, ◌≤◌, ◌<◌, ◌≡◌, ◌≢◌, refl, sym, ap, ◌∙◌, List, [], ◌∷◌, ◌++◌, replicate,
  length-replicate, length-append, Option, none, some, Bool, true, false, length, get_elem?, set,
  take, leb, if◌then◌else◌, arith, Outcome, ok, undefined, assert, ◌>>=◌, ◌>>◌, Succeeds, dec_le,
  take-all, le→leb, gt→leb, inl, inr, ◌⊎◌,
}

-- a null pointer is `none`
abbrev pub Table : Type 0
Table = List (Option ℕ)

abbrev is_null : Option ℕ → Bool
is_null none = true
is_null (some c) = false

-- `channels[i]`
abbrev at : Table → ℕ → Outcome (Option ℕ)
at t i = elim (get_elem? t i) [ none ↦ undefined | some p ↦ ok p ]

unfoldable pub new_table : Table
new_table = replicate 1024 none

-- `channels.resize(n)`
unfoldable pub resize : ℕ → Table → Table
resize n t = take n t ++ replicate (n - length t) none

abbrev put : ℕ → ℕ → Table → Outcome Table
put fd channel t = do p ← at t fd; assert (is_null p); ok (set t fd (some channel))

unfoldable pub add : ℕ → ℕ → Table → Outcome Table
add fd channel t = put fd channel (if leb (length t) fd then resize (fd * 2) t else t)

unfoldable pub cancel : ℕ → Table → Outcome Table
cancel fd t = do p ← at t fd; assert (if is_null p then false else true); ok (set t fd none)

-- The channel that stands at a descriptor, where there is one.
abbrev pub channel_at : Table → ℕ → Option ℕ
channel_at [] i = none
channel_at (p ∷ t) zero = p
channel_at (p ∷ t) (suc i) = channel_at t i

get_elem?-channel_at : (t : Table) (i : ℕ) → i < length t → get_elem? t i ≡ some (channel_at t i)
get_elem?-channel_at [] i h = absurd (omega arith)
get_elem?-channel_at (p ∷ t) zero h = refl
get_elem?-channel_at (p ∷ t) (suc i) h = get_elem?-channel_at t i (omega arith)

channel_at-set_self :
    (t : Table) (i : ℕ) (p : Option ℕ) → i < length t → channel_at (set t i p) i ≡ p
channel_at-set_self [] i p h = absurd (omega arith)
channel_at-set_self (q ∷ t) zero p h = refl
channel_at-set_self (q ∷ t) (suc i) p h = channel_at-set_self t i p (omega arith)

channel_at-set_ne :
    (t : Table) (i j : ℕ) (p : Option ℕ) → i ≢ j → channel_at (set t i p) j ≡ channel_at t j
channel_at-set_ne [] i j p h = refl
channel_at-set_ne (q ∷ t) zero zero p h = absurd (h refl)
channel_at-set_ne (q ∷ t) zero (suc j) p h = refl
channel_at-set_ne (q ∷ t) (suc i) zero p h = refl
channel_at-set_ne (q ∷ t) (suc i) (suc j) p h = channel_at-set_ne t i j p (λ e. h (ap suc e))

channel_at-replicate : (n j : ℕ) → channel_at (replicate n none) j ≡ none
unfolding replicate
channel_at-replicate zero j = refl
channel_at-replicate (suc n) zero = refl
channel_at-replicate (suc n) (suc j) = channel_at-replicate n j

channel_at-append : (t : Table) (n j : ℕ) → channel_at (t ++ replicate n none) j ≡ channel_at t j
channel_at-append [] n j = channel_at-replicate n j
channel_at-append (p ∷ t) n zero = refl
channel_at-append (p ∷ t) n (suc j) = channel_at-append t n j

-- the table as it is written to
abbrev pub Added : ℕ → ℕ → Table → Table → Type 0
Added fd channel t t' =
    (channel_at t' fd ≡ some channel) × ((j : ℕ) → fd ≢ j → channel_at t' j ≡ channel_at t j)

put-Added :
    (fd channel : ℕ) (t : Table)
    → fd < length t
    → channel_at t fd ≡ none
    → Succeeds (put fd channel t) (Added fd channel t)
put-Added fd channel t h free =
    let there : get_elem? t fd ≡ some none = get_elem?-channel_at t fd h ∙ ap some free in
    (
      set t fd (some channel),
      rw (there, at) refl,
      (
        channel_at-set_self t fd (some channel) h,
        λ j ne. channel_at-set_ne t fd j (some channel) ne,
      ),
    )

-- A table that is grown holds the same channels, and reaches the descriptor.
resize_lem :
    (fd : ℕ) (t : Table)
    → 0 < fd
    → length t ≤ fd
    → (fd < length (resize (fd * 2) t))
      × ((j : ℕ) → channel_at (resize (fd * 2) t) j ≡ channel_at t j)
unfolding resize
resize_lem fd t h le =
    let nothing : Option ℕ = none in
    rw (take-all (fd * 2) t (omega arith)) (
      omega (
        arith,
        length-append t (replicate (fd * 2 - length t) none),
        length-replicate (fd * 2 - length t) nothing,
      ),
      channel_at-append t (fd * 2 - length t),
    )

channel_at-outside : (t : Table) (i : ℕ) → length t ≤ i → channel_at t i ≡ none
channel_at-outside [] i h = refl
channel_at-outside (p ∷ t) zero h = absurd (omega arith)
channel_at-outside (p ∷ t) (suc i) h = channel_at-outside t i (omega arith)

-- A channel is added at a descriptor that has none, inside the table or beyond its end, and every
-- other descriptor keeps its channel. The descriptor 0 is taken for a table that is not empty.
pub add_lem :
    (fd channel : ℕ) (t : Table)
    → (0 < fd) ⊎ (0 < length t)
    → channel_at t fd ≡ none
    → Succeeds (add fd channel t) (Added fd channel t)
unfolding add
add_lem fd channel t h free = elim (dec_le (length t) fd) [
  | yes le ↦
      let grown = resize_lem fd t (elim h [ inl pos ↦ pos | inr more ↦ omega arith ]) le in
      let r = put-Added fd channel (resize (fd * 2) t) grown.0 (grown.1 fd ∙ free) in
      rw (le→leb (length t) fd le) (r.0, r.1, (r.2.0, λ j ne. r.2.1 j ne ∙ grown.1 j))
  | no gt ↦ rw (gt→leb (length t) fd (omega arith)) (put-Added fd channel t (omega arith) free)
]

-- A descriptor of a channel is inside the table.
channel_at-inside : (t : Table) (i channel : ℕ) → channel_at t i ≡ some channel → i < length t
channel_at-inside t i channel h = elim (dec_le (length t) i) [
  | yes le ↦ (let apart : none ≡ some channel = sym (channel_at-outside t i le) ∙ h in absurd cc)
  | no gt ↦ omega arith
]

length-set : (t : Table) (i : ℕ) (p : Option ℕ) → length (set t i p) ≡ length t
length-set [] i p = refl
length-set (q ∷ t) zero p = refl
length-set (q ∷ t) (suc i) p = ap suc (length-set t i p)

-- Cancelling the descriptor of a channel gives up that channel and no other, and another channel can
-- then take the descriptor.
pub cancel-add :
    (fd channel other : ℕ) (t : Table)
    → channel_at t fd ≡ some channel
    → Succeeds (cancel fd t) λ t'.
      (channel_at t' fd ≡ none)
      × ((j : ℕ) → fd ≢ j → channel_at t' j ≡ channel_at t j)
      × Succeeds (add fd other t') (Added fd other t')
unfolding cancel
cancel-add fd channel other t h =
    let inside = channel_at-inside t fd channel h in
    let there : get_elem? t fd ≡ some (some channel) =
      get_elem?-channel_at t fd inside ∙ ap some h in
    let freed = channel_at-set_self t fd none inside in
    (
      set t fd none,
      rw (there, at) refl,
      (
        freed,
        λ j ne. channel_at-set_ne t fd j none ne,
        add_lem fd other (set t fd none) (inr (omega (arith, length-set t fd none))) freed,
      ),
    )
