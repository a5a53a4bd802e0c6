-- ===== src/Io/Iocp/Completion.antt =====
-- What becomes of an operation that has completed.
use hulatang_io.Base.{ℕ, ◌≡◌, ◌≢◌, refl, List, [], ◌∷◌, ◌++◌, eq→==, ne→==, ok, aborted}
use hulatang_io.Io.Proactor.{Over, Handled, handle_over, handle_event}
use hulatang_io.Io.Iocp.{unlink, unlink_rest, complete_one}

-- No operation of the list has the address.
pub data Lacks (a : ℕ) : List Over → Type 0 where
  lacks_none : Lacks a []
  lacks : {o : Over} {os : List Over} → o.address ≢ a → Lacks a os → Lacks a (o ∷ os)

unlink_rest_lem :
    (o : Over) (xs ys : List Over)
    → Lacks o.address xs
    → unlink_rest o.address (xs ++ o ∷ ys) ≡ ok (o, xs ++ ys)
unfolding unlink_rest
unlink_rest_lem o [] ys lacks_none = rw (eq→== o.address o.address refl) refl
unlink_rest_lem o (x ∷ xs) ys (lacks ne more) =
    rw (ne→== x.address o.address ne, unlink_rest_lem o xs ys more) refl

unlink_lem :
    (o : Over) (xs ys : List Over)
    → Lacks o.address xs
    → unlink o.address (xs ++ o ∷ ys) ≡ ok (o, xs ++ ys)
unfolding unlink
unlink_lem o [] ys lacks_none = rw (eq→== o.address o.address refl) refl
unlink_lem o (x ∷ xs) ys (lacks ne more) =
    rw (ne→== x.address o.address ne, unlink_rest_lem o xs ys more) refl

unlink_rest-absent : (a : ℕ) (xs : List Over) → Lacks a xs → unlink_rest a xs ≡ aborted
unfolding unlink_rest
unlink_rest-absent a [] lacks_none = refl
unlink_rest-absent a (x ∷ xs) (lacks ne more) =
    rw (ne→== x.address a ne, unlink_rest-absent a xs more) refl

-- An operation that completes, with an address that none before it in the list has, is given to its handler, once
-- and alone; it has left the list, and the others stay in their order.
pub complete_one_lem :
    (o : Over) (xs ys : List Over) (h : Handled)
    → Lacks o.address xs
    → handle_over o ≡ ok h
    → complete_one o.address (record { over = xs ++ o ∷ ys; rover = [] })
      ≡ ok (h ∷ [], record { over = xs ++ ys; rover = [] })
unfolding complete_one handle_event
complete_one_lem o xs ys h fresh e = rw (unlink_lem o xs ys fresh, e) refl

-- A completion of an operation that the channel does not have, where it has others, ends the program.
complete_one-absent :
    (a : ℕ) (x : Over) (xs rover : List Over)
    → Lacks a (x ∷ xs)
    → complete_one a (record { over = x ∷ xs; rover = rover }) ≡ aborted
unfolding complete_one unlink
complete_one-absent a x xs rover (lacks ne more) =
    rw (ne→== x.address a ne, unlink_rest-absent a xs more) refl
