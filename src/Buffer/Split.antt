-- ===== src/Buffer/Split.antt =====
-- Slices of a list that is cut in pieces or written over.
use hulatang_io.Base.{
  ℕ, zero, suc, ◌+◌, ◌-◌, ◌≤◌, ◌≡◌, refl, sym, ap, ◌∙◌, List, [], ◌∷◌, ◌++◌, append_assoc, arith,
  length, take, drop, slice, length-append, length-take, length-drop, take-append, drop-append,
  take-nil,
}

module _ {ℓ} {A : Type ℓ} where
  pub slice-append :
      (i j : ℕ) (front mid rear : List A)
      → i ≡ length front
      → j ≡ length front + length mid
      → slice i j (front ++ (mid ++ rear)) ≡ mid
  slice-append i j front mid rear p q =
      rw (drop-append i front (mid ++ rear) p) (take-append (j - i) mid rear (omega arith))

  pub length-slice : (i j : ℕ) (xs : List A) → i ≤ j → j ≤ length xs → length (slice i j xs) ≡ j - i
  length-slice i j xs p q = length-take (j - i) (drop i xs) (omega (arith, length-drop i xs))

  pub take-split : (i j : ℕ) (xs : List A) → i ≤ j → take j xs ≡ take i xs ++ slice i j xs
  unfolding take drop
  take-split zero j xs h = ap (λ k. take k xs) (omega arith)
  take-split (suc i) zero xs h = absurd (omega arith)
  take-split (suc i) (suc j) [] h = sym (take-nil (suc j - suc i))
  take-split (suc i) (suc j) (x ∷ xs) h =
      ap (λ t. x ∷ t)
        (take-split i j xs (omega arith) ∙ ap (λ k. take i xs ++ take k (drop i xs)) k)
    where
      k : j - i ≡ suc j - suc i
      k = omega arith

  -- Reading across the end of what is kept and what is written there.
  pub slice-store :
      (i j k : ℕ) (xs ys rest : List A)
      → i ≤ j
      → j ≤ length xs
      → k ≡ j + length ys
      → slice i k (take j xs ++ (ys ++ rest)) ≡ slice i j xs ++ ys
  slice-store i j k xs ys rest p q e =
      ap (slice i k) joined
      ∙ slice-append i k (take i xs) (slice i j xs ++ ys) rest (omega (arith, length-take i xs)) (
          omega (arith, length-take i xs, length-slice i j xs p q, length-append (slice i j xs) ys))
    where
      joined : take j xs ++ (ys ++ rest) ≡ take i xs ++ ((slice i j xs ++ ys) ++ rest)
      joined = rw (take-split i j xs p) (simp append_assoc)

  pub take-append_left : (n : ℕ) (xs ys : List A) → n ≤ length xs → take n (xs ++ ys) ≡ take n xs
  unfolding take
  take-append_left zero xs ys h = refl
  take-append_left (suc n) [] ys h = absurd (omega arith)
  take-append_left (suc n) (x ∷ xs) ys h = ap (λ t. x ∷ t) (take-append_left n xs ys (omega arith))

  pub slice-append_left :
      (i j : ℕ) (xs ys : List A) → i ≤ j → j ≤ length xs → slice i j (xs ++ ys) ≡ slice i j xs
  unfolding drop
  slice-append_left zero j xs ys p q = take-append_left (j - 0) xs ys (omega arith)
  slice-append_left (suc i) zero xs ys p q = absurd (omega arith)
  slice-append_left (suc i) (suc j) [] ys p q = absurd (omega arith)
  slice-append_left (suc i) (suc j) (x ∷ xs) ys p q =
      ap (λ k. take k (drop i (xs ++ ys))) k
      ∙ slice-append_left i j xs ys (omega arith) (omega arith)
      ∙ ap (λ k. take k (drop i xs)) (sym k)
    where
      k : suc j - suc i ≡ j - i
      k = omega arith

  pub drop-take : (n m : ℕ) (xs : List A) → drop n (take m xs) ≡ take (m - n) (drop n xs)
  unfolding take drop
  drop-take zero m xs = ap (λ k. take k xs) (omega arith)
  drop-take (suc n) zero [] = sym (take-nil (0 - suc n))
  drop-take (suc n) zero (x ∷ xs) = ap (λ k. take k (drop n xs)) zeros
    where
      zeros : zero ≡ zero - suc n
      zeros = omega arith
  drop-take (suc n) (suc m) [] = sym (take-nil (suc m - suc n))
  drop-take (suc n) (suc m) (x ∷ xs) = drop-take n m xs ∙ ap (λ k. take k (drop n xs)) shift
    where
      shift : m - n ≡ suc m - suc n
      shift = omega arith

  pub take-take : (m n : ℕ) (xs : List A) → m ≤ n → take m (take n xs) ≡ take m xs
  unfolding take
  take-take zero n xs h = refl
  take-take (suc m) zero xs h = absurd (omega arith)
  take-take (suc m) (suc n) [] h = refl
  take-take (suc m) (suc n) (x ∷ xs) h = ap (λ t. x ∷ t) (take-take m n xs (omega arith))
