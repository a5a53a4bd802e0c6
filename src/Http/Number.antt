-- ===== src/Http/Number.antt =====
-- `std::stoi` and `std::stoul` of the C++ library, as far as hulatang/http/HttpResponse.cpp uses them.
use hulatang_io.Base.{
  ℕ, ◌+◌, ◌-◌, ◌*◌, ◌^◌, [], ◌∷◌, Bool, ◌&&◌, ◌||◌, ◌==◌, leb, ltb, if◌then◌else◌, Option, none,
  true, false, some, Text, Outcome, ok, thrown,
}

abbrev is_space : ℕ → Bool
is_space c = c == 32 || leb 9 c && leb c 13

unfoldable pub skip_spaces : Text → Text
skip_spaces [] = []
skip_spaces (c ∷ xs) = let rest = skip_spaces xs in if is_space c then rest else c ∷ xs

unfoldable pub digit_value : ℕ → ℕ → Option ℕ
digit_value base c =
    let v =
      if leb b'0' c && leb c b'9'
      then c - b'0'
      else if leb b'a' c && leb c b'z'
      then c - b'a' + 10
      else if leb b'A' c && leb c b'Z'
      then c - b'A' + 10
      else base in
    if ltb v base then some v else none

-- The value of the digits that the text starts with.
unfoldable pub read_digits : ℕ → ℕ → Text → ℕ
read_digits base acc [] = acc
read_digits base acc (c ∷ xs) = elim (digit_value base c) [
  | none ↦ acc
  | some v ↦ read_digits base (acc * base + v) xs
]

-- `none` where no digit stands first: no conversion can be made.
unfoldable pub magnitude : ℕ → Text → Option ℕ
magnitude base [] = none
magnitude base (c ∷ xs) = elim (digit_value base c) [
  | none ↦ none
  | some v ↦ some (read_digits base v xs)
]

-- A number of base 16 may start with "0x", where a digit follows.
unfoldable pub unprefixed : ℕ → Text → Option ℕ
unprefixed base [] = none
unprefixed base (a ∷ []) = magnitude base (a ∷ [])
unprefixed base (a ∷ x ∷ xs) =
    if base == 16 && a == b'0' && (x == b'x' || x == b'X')
    then elim (magnitude base xs) [ none ↦ some 0 | some v ↦ some v ]
    else magnitude base (a ∷ x ∷ xs)

abbrev with_sign : Bool → Option ℕ → Option (Bool × ℕ)
with_sign s none = none
with_sign s (some v) = some (s, v)

-- The sign, and the value behind it.
unfoldable pub signed : ℕ → Text → Option (Bool × ℕ)
signed base [] = none
signed base (c ∷ xs) =
    if c == b'-'
    then with_sign true (unprefixed base xs)
    else if c == b'+'
    then with_sign false (unprefixed base xs)
    else with_sign false (unprefixed base (c ∷ xs))

-- `stoul(text, nullptr, base)`: out of range throws, and a negated value wraps.
unfoldable pub stoul : ℕ → Text → Outcome ℕ
stoul base xs = elim (signed base (skip_spaces xs)) [
  | none ↦ thrown
  | some (negative, v) ↦
      if ltb v (2 ^ 64) then ok (if negative && leb 1 v then 2 ^ 64 - v else v) else thrown
]

-- `stoi(text)`, as the bit pattern of an `int`
unfoldable pub stoi : Text → Outcome ℕ
stoi xs = elim (signed 10 (skip_spaces xs)) [
  | none ↦ thrown
  | some (negative, v) ↦
      if negative
      then (if leb v (2 ^ 31) then ok (if leb 1 v then 2 ^ 32 - v else 0) else thrown)
      else (if ltb v (2 ^ 31) then ok v else thrown)
]
