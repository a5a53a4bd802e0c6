-- ===== src/Io/TestKernel.antt =====
-- A kernel for tests: the set of the descriptors that it knows; and an empty buffer.
use hulatang_io.Base.{
  ℕ, ◌≡◌, refl, [], ◌∷◌, Bool, true, false, ◌==◌, if◌then◌else◌, eq→==, Option, some, arith,
}
use hulatang_io.Buffer.{Buffer}
use hulatang_io.Buffer.Valid.{IsValid}
use hulatang_io.Io.Channel.{Op, Event, ctl_add, ctl_mod, ctl_del}

abbrev pub Known : Type 0
Known = ℕ → Bool

abbrev pub know : ℕ → Bool → Known → Known
know fd b k = λ i. if i == fd then b else k i

abbrev pub ctl : Op → Event → Known → Option Known
ctl ctl_add e k = some (know e.fd true k)
ctl ctl_mod e k = some k
ctl ctl_del e k = some (know e.fd false k)

abbrev pub known : Known → ℕ → Bool
known k fd = k fd

pub modified :
    (e : Event) (k : Known)
    → known k e.fd ≡ true
    → (k' : Known) × (ctl ctl_mod e k ≡ some k') × (known k' e.fd ≡ true)
modified e k h = (k, refl, h)

pub deleted :
    (e : Event) (k : Known)
    → known k e.fd ≡ true
    → (k' : Known) × (ctl ctl_del e k ≡ some k') × (known k' e.fd ≡ false)
deleted e k h = (know e.fd false k, refl, rw (eq→== e.fd e.fd refl) refl)

abbrev pub blank : Buffer
blank = record {
  bytes = 0 ∷ 0 ∷ 0 ∷ 0 ∷ 0 ∷ 0 ∷ 0 ∷ 0 ∷ 0 ∷ 0 ∷ [];
  reader_index = 8;
  writer_index = 8;
}

pub blank-IsValid : IsValid blank
blank-IsValid = record {
  prepend_room = omega arith;
  ordered = omega arith;
  within = omega arith;
  small = omega arith;
}
