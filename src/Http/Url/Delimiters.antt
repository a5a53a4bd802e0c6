-- ===== src/Http/Url/Delimiters.antt =====
-- Where the delimiters of a URL are found, and what the character classes exclude.
use hulatang_io.Base.{
  ℕ, ◌+◌, ◌≡◌, refl, ap, ◌∙◌, ◌⊎◌, [], ◌∷◌, ◌++◌, Bool, true, false, ◌&&◌, Option, none, some,
  all_of, length, arith, Text, find, Lacks,
}
use hulatang_io.Http.Url.{min_position, first_delimiter}

-- What every byte of a text passes excludes a byte that does not.
pub Lacks-all_of :
    (p : ℕ → Bool) (c : ℕ) (xs : Text) → p c ≡ false → all_of p xs ≡ true → Lacks c xs
unfolding all_of
Lacks-all_of p c [] h k = tt
Lacks-all_of p c (x ∷ xs) h k = (
  (λ e. cc (ap p e, and_left (p x) (all_of p xs) k)),
  Lacks-all_of p c xs h (and_right (p x) (all_of p xs) k),
)
  where
    and_left : (a b : Bool) → (a && b) ≡ true → a ≡ true
    and_left a b e = ground arith

    and_right : (a b : Bool) → (a && b) ≡ true → b ≡ true
    and_right a b e = ground arith

-- `n` positions further on
abbrev pub shift : ℕ → Option ℕ → Option ℕ
shift n none = none
shift n (some i) = some (n + i)

find-shift : (c : ℕ) (xs ys : Text) → Lacks c xs → find c (xs ++ ys) ≡ shift (length xs) (find c ys)
unfolding find
find-shift c [] ys h = ground arith
find-shift c (x ∷ xs) ys h = ground (arith, find-shift c xs ys h.1)

min_position-shift :
    (n : ℕ) (i j : Option ℕ) → min_position (shift n i) (shift n j) ≡ shift n (min_position i j)
min_position-shift n i j = ground arith

-- A text that ends, or goes on with a delimiter.
abbrev pub StartsTail : Text → Type 0
StartsTail [] = Unit {0}
StartsTail (x ∷ xs) = (x ≡ b'/') ⊎ (x ≡ b'?') ⊎ (x ≡ b'#')

abbrev pub tail_position : ℕ → Text → Option ℕ
tail_position n [] = none
tail_position n (x ∷ xs) = some n

first_delimiter-tail : (ys : Text) → StartsTail ys → first_delimiter ys ≡ tail_position 0 ys
unfolding first_delimiter find
first_delimiter-tail [] h = refl
first_delimiter-tail (y ∷ ys) h = ground arith

-- The first delimiter of a text stands right behind what has none.
pub first_delimiter-append :
    (xs ys : Text)
    → Lacks b'/' xs
    → Lacks b'?' xs
    → Lacks b'#' xs
    → StartsTail ys
    → first_delimiter (xs ++ ys) ≡ tail_position (length xs) ys
unfolding first_delimiter
first_delimiter-append xs ys p q r h =
    rw (find-shift b'/' xs ys p, find-shift b'?' xs ys q, find-shift b'#' xs ys r)
      (rw (min_position-shift, min_position-shift)
        (ap (shift (length xs)) (unfold first_delimiter in first_delimiter-tail ys h) ∙ moved ys))
  where
    moved : (ys : Text) → shift (length xs) (tail_position 0 ys) ≡ tail_position (length xs) ys
    moved [] = refl
    moved (y ∷ ys) = ap some (omega arith)
