-- ===== src/Base/Results.antt =====
-- What a call ends in: a value, a failed `assert`, undefined behaviour (an access outside the
-- storage, arithmetic on a null pointer), an exception, or, for a loop on
-- fuel, none of these within the fuel.
use mathlib.Core.Path.{◌≡◌, refl, ap}
use mathlib.Core.Logic.{◌≢◌}
use mathlib.Core.Bool.{Bool, true, false}

pub data Outcome {ℓ} (A : Type ℓ) : Type ℓ where
  ok : A → Outcome A
  aborted : Outcome A
  undefined : Outcome A
  thrown : Outcome A
  diverged : Outcome A

infixl 5 ◌>>=◌ ◌>>◌
abbrev pub ◌>>=◌ {ℓ κ} : {A : Type ℓ} {B : Type κ} → Outcome A → (A → Outcome B) → Outcome B
ok a >>= f = f a
aborted >>= f = aborted
undefined >>= f = undefined
thrown >>= f = thrown
diverged >>= f = diverged

abbrev pub ◌>>◌ {ℓ} : {B : Type ℓ} → Outcome (Unit {0}) → Outcome B → Outcome B
m >> k = m >>= λ _. k

-- `assert(b)`
abbrev pub assert : Bool → Outcome (Unit {0})
assert true = ok tt
assert false = aborted

-- what the language requires of an access
abbrev pub require : Bool → Outcome (Unit {0})
require true = ok tt
require false = undefined

-- The call returns a value, and the value satisfies `P`.
abbrev pub Succeeds {ℓ κ} : {A : Type ℓ} → Outcome A → (A → Type κ) → Type (ℓ ⊔ κ)
Succeeds {A = A} m P = (a : A) × (m ≡ ok a) × P a

-- A sequence ends if each part does.
pub >>=-ends {ℓ κ} :
    {A : Type ℓ} {B : Type κ} (m : Outcome A) (f : A → Outcome B)
    → m ≢ diverged
    → ((a : A) → m ≡ ok a → f a ≢ diverged)
    → (m >>= f) ≢ diverged
>>=-ends (ok a) f h k = k a refl
>>=-ends aborted f h k = λ e. cc
>>=-ends undefined f h k = λ e. cc
>>=-ends thrown f h k = λ e. cc
>>=-ends diverged f h k = λ e. absurd (h refl)

-- A sequence returns nothing if its second part never does.
pub >>=-ne-ok {ℓ κ} :
    {A : Type ℓ} {B : Type κ} (m : Outcome A) (f : A → Outcome B)
    → ((a : A) (b : B) → f a ≢ ok b)
    → (b : B) → (m >>= f) ≢ ok b
>>=-ne-ok (ok a) f h b = h a b
>>=-ne-ok aborted f h b = λ e. cc
>>=-ne-ok undefined f h b = λ e. cc
>>=-ne-ok thrown f h b = λ e. cc
>>=-ne-ok diverged f h b = λ e. cc

-- Nor if its first part never does.
pub >>=-ne-ok_left {ℓ κ} :
    {A : Type ℓ} {B : Type κ} (m : Outcome A) (f : A → Outcome B)
    → ((a : A) → m ≢ ok a)
    → (b : B) → (m >>= f) ≢ ok b
>>=-ne-ok_left (ok a) f h b = absurd (h a refl)
>>=-ne-ok_left aborted f h b = λ e. cc
>>=-ne-ok_left undefined f h b = λ e. cc
>>=-ne-ok_left thrown f h b = λ e. cc
>>=-ne-ok_left diverged f h b = λ e. cc

-- A sequence that returns a value has two parts that do.
pub >>=-inverse {ℓ κ} :
    {A : Type ℓ} {B : Type κ} (m : Outcome A) (f : A → Outcome B) (b : B)
    → (m >>= f) ≡ ok b
    → (a : A) × (m ≡ ok a) × (f a ≡ ok b)
>>=-inverse (ok a) f b e = (a, refl, e)
>>=-inverse aborted f b e = absurd cc
>>=-inverse undefined f b e = absurd cc
>>=-inverse thrown f b e = absurd cc
>>=-inverse diverged f b e = absurd cc

abbrev value_or {ℓ} : {A : Type ℓ} → A → Outcome A → A
value_or d (ok a) = a
value_or d aborted = d
value_or d undefined = d
value_or d thrown = d
value_or d diverged = d

pub ok-injective {ℓ} : {A : Type ℓ} (a b : A) → ok a ≡ ok b → a ≡ b
ok-injective a b e = ap (value_or a) e
