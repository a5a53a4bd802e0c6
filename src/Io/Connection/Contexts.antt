-- ===== src/Io/Connection/Contexts.antt =====
-- hulatang/io/TCPConnection.hpp: the contexts that a user keeps with a connection, an array of four `std::any`.
use hulatang_io.Base.{
  ℕ, zero, suc, ◌≡◌, ◌≢◌, refl, ap, List, [], ◌∷◌, none, some, Option-cases, ◌⊎◌, Succeeds, inl,
  inr, get_elem?, set, Outcome, ok, thrown, ◌>>=◌,
}

module _ {ℓ} {A : Type ℓ} where
  -- `at` of an array throws where the index is out of range.
  unfoldable pub context : ℕ → List A → Outcome A
  context index contexts = elim (get_elem? contexts index) [ none ↦ thrown | some value ↦ ok value ]

  unfoldable pub set_context : ℕ → A → List A → Outcome (List A)
  set_context index value contexts = context index contexts >>= λ old. ok (set contexts index value)

  set-get :
      (xs : List A) (i : ℕ) (v w : A) → get_elem? xs i ≡ some w → get_elem? (set xs i v) i ≡ some v
  set-get [] i v w e = absurd cc
  set-get (x ∷ xs) zero v w e = refl
  set-get (x ∷ xs) (suc i) v w e = set-get xs i v w e

  set-other : (xs : List A) (i j : ℕ) (v : A) → i ≢ j → get_elem? (set xs i v) j ≡ get_elem? xs j
  set-other [] i j v h = refl
  set-other (x ∷ xs) zero zero v h = absurd (h refl)
  set-other (x ∷ xs) zero (suc j) v h = refl
  set-other (x ∷ xs) (suc i) zero v h = refl
  set-other (x ∷ xs) (suc i) (suc j) v h = set-other xs i j v (λ e. h (ap suc e))

  -- A context that could be set is the one that is read, the others are as before, and none can be set that could not
  -- be read.
  pub set_context-context :
      (index other : ℕ) (value : A) (contexts : List A)
      → index ≢ other
      → (set_context index value contexts ≡ thrown) × (context index contexts ≡ thrown)
        ⊎ Succeeds
            (set_context index value contexts)
            λ cs. (context index cs ≡ ok value) × (context other cs ≡ context other contexts)
  unfolding set_context context
  set_context-context index other value contexts apart =
      elim (Option-cases (get_elem? contexts index)) [
        | inl e ↦ inl (rw (set_context, context, e) refl, rw (context, e) refl)
        | inr (old, e) ↦ inr (
          set contexts index value,
          rw (set_context, context, e) refl,
          (
            rw (context, set-get contexts index value old e) refl,
            rw (context, set-other contexts index other value apart) refl,
          ),
        )
      ]
