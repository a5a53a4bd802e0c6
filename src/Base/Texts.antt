-- ===== src/Base/Texts.antt =====
-- Texts as lists of bytes, with what the code uses of `std::string_view`. A position is an option,
-- `none` for `npos`.
use Prim.Native.Nat.{ℕ, suc}
use Prim.Native.Char.{code}
use Prim.Native.String.{String}
use mathlib.Core.Path.{◌≡◌, refl, sym, ap₂, ◌∙◌}
use mathlib.Core.Logic.{◌≢◌}
use mathlib.Core.Bool.{Bool, true, false, ◌&&◌}
use mathlib.Core.Option.{Option, none, some}
use mathlib.Core.List.{List, [], ◌∷◌, ◌++◌}
use native.Mathlib.Omega.{arith}
use native.Mathlib.Decide.{ℕ_discrete}
use hulatang_io.Base.Tests.{◌==◌, if◌then◌else◌, eq→==, ne→==}
use hulatang_io.Base.Lists.{length, take, drop, take-append}

abbrev pub Text : Type 0
Text = List ℕ

-- the bytes of an ASCII literal
abbrev pub codes : String → Text
codes String.[] = []
codes (String.◌∷◌ c s) = code c ∷ codes s

unfoldable pub text_eq : Text → Text → Bool
text_eq [] [] = true
text_eq [] (y ∷ ys) = false
text_eq (x ∷ xs) [] = false
text_eq (x ∷ xs) (y ∷ ys) = x == y && text_eq xs ys

pub text_eq_self : (s : Text) → text_eq s s ≡ true
unfolding text_eq
text_eq_self [] = refl
text_eq_self (c ∷ cs) = rw (eq→== c c refl) (text_eq_self cs)

pub text_eq_sound : (s t : Text) → text_eq s t ≡ true → s ≡ t
unfolding text_eq
text_eq_sound [] [] e = refl
text_eq_sound [] (d ∷ ds) e = absurd cc
text_eq_sound (c ∷ cs) [] e = absurd cc
text_eq_sound (c ∷ cs) (d ∷ ds) e = elim (ℕ_discrete c d) [
  | yes same ↦ ap₂ (λ x xs. x ∷ xs) same (text_eq_sound cs ds (sym (rw (eq→== c d same) refl) ∙ e))
  | no differ ↦ absurd (let wrong : false ≡ true = sym (rw (ne→== c d differ) refl) ∙ e in cc)
]

unfoldable pub starts_with : Text → Text → Bool
starts_with [] ys = true
starts_with (x ∷ xs) [] = false
starts_with (x ∷ xs) (y ∷ ys) = x == y && starts_with xs ys

-- one position further on
abbrev pub later : Option ℕ → Option ℕ
later none = none
later (some i) = some (suc i)

-- `find(c)`
unfoldable pub find : ℕ → Text → Option ℕ
find c [] = none
find c (x ∷ xs) = let rest = find c xs in if x == c then some 0 else later rest

-- `find_last_of(c)`
unfoldable pub find_last : ℕ → Text → Option ℕ
find_last c [] = none
find_last c (x ∷ xs) = elim (find_last c xs) [
  | none ↦ if x == c then some 0 else none
  | some i ↦ some (suc i)
]

-- `substr(0, i)`
abbrev pub before : Option ℕ → Text → Text
before none xs = xs
before (some i) xs = take i xs

-- `substr(i + 1)`, where `npos + 1` is 0
abbrev pub after : Option ℕ → Text → Text
after none xs = xs
after (some i) xs = drop (suc i) xs

-- No byte of the text is `c`.
abbrev pub Lacks : ℕ → Text → Type 0
Lacks c [] = Unit
Lacks c (x ∷ xs) = (x ≢ c) × Lacks c xs

pub find-none : (c : ℕ) (xs : Text) → Lacks c xs → find c xs ≡ none
unfolding find
find-none c [] h = refl
find-none c (x ∷ xs) h = ground (arith, find-none c xs h.1)

pub find-append : (c : ℕ) (xs ys : Text) → Lacks c xs → find c (xs ++ c ∷ ys) ≡ some (length xs)
unfolding find
find-append c [] ys h = rw (eq→== c c refl)
find-append c (x ∷ xs) ys h = ground (arith, find-append c xs ys h.1)

pub find_last-none : (c : ℕ) (xs : Text) → Lacks c xs → find_last c xs ≡ none
unfolding find_last
find_last-none c [] h = refl
find_last-none c (x ∷ xs) h = ground (arith, find_last-none c xs h.1)

pub find_last-append :
    (c : ℕ) (xs ys : Text) → Lacks c ys → find_last c (xs ++ c ∷ ys) ≡ some (length xs)
unfolding find_last
find_last-append c [] ys h = ground (arith, find_last-none c ys h)
find_last-append c (x ∷ xs) ys h = ground (arith, find_last-append c xs ys h)

pub Lacks-append : (c : ℕ) (xs ys : Text) → Lacks c xs → Lacks c ys → Lacks c (xs ++ ys)
Lacks-append c [] ys h k = k
Lacks-append c (x ∷ xs) ys h k = (h.0, Lacks-append c xs ys h.1 k)

-- What stands before and after a byte at its position.
pub before-append : (c : ℕ) (xs ys : Text) → before (some (length xs)) (xs ++ c ∷ ys) ≡ xs
before-append c xs ys = take-append (length xs) xs (c ∷ ys) refl

pub after-append : (c : ℕ) (xs ys : Text) → after (some (length xs)) (xs ++ c ∷ ys) ≡ ys
unfolding drop
after-append c [] ys = refl
after-append c (x ∷ xs) ys = after-append c xs ys
