-- ===== src/Io/Proactor.antt =====
-- hulatang/io/Proactor.cpp: the lists of overlapped operations of a channel. An operation is its
-- address and its type, and a list is the chain of its `next` pointers.
use hulatang_io.Base.{
  ℕ, ◌≡◌, refl, List, [], ◌∷◌, ◌++◌, Option, none, some, Outcome, ok, aborted, undefined, ◌>>=◌,
}

pub data OverType : Type 0 where
  none_type open_type close_type read_type write_type update_type : OverType

pub record Over : Type 0 where
  pub address : ℕ
  pub type : OverType

-- What is done with an operation.
pub data Handled : Type 0 where
  deleted read_handled write_handled : ℕ → Handled
  update_posted : Handled

unfoldable pub handle_over : Over → Outcome Handled
handle_over o = elim o.type [
  | none_type ↦ ok (deleted o.address)
  | read_type ↦ ok (read_handled o.address)
  | write_type ↦ ok (write_handled o.address)
  | update_type ↦ ok update_posted
  | open_type ↦ aborted
  | close_type ↦ aborted
]

-- The loop: `over` is unlinked before it is handled, and the last one is handled behind the loop.
unfoldable pub walk : Over → List Over → Outcome (List Handled)
walk over [] = do h ← handle_over over; ok (h ∷ [])
walk over (over_next ∷ rest) = do h ← handle_over over; hs ← walk over_next rest; ok (h ∷ hs)

-- `over->next` is read before `over` is tested.
unfoldable pub handle_event : List Over → Outcome (List Handled)
handle_event [] = undefined
handle_event (over ∷ []) = do h ← handle_over over; ok (h ∷ [])
handle_event (over ∷ over_next ∷ rest) = walk over (over_next ∷ rest)

unfoldable pub add_over : List Over → Over → List Over
add_over [] over = over ∷ []
add_over (o ∷ os) over = o ∷ add_over os over

-- `addFree`: `tasks` is the deletions that wait in the loop of the current thread, where it has one.
unfoldable pub add_free : Over → Option (List ℕ) → Outcome (List ℕ)
add_free over none = undefined
add_free over (some tasks) = ok (tasks ++ over.address ∷ [])

-- `FreeOverList(Over *)`: the addresses that are deleted.
unfoldable pub free_over_list : List Over → List ℕ
free_over_list [] = []
free_over_list (o ∷ []) = o.address ∷ []
free_over_list (o ∷ p ∷ os) = free_over_list (p ∷ os)

-- `FreeOverList(Channel *)`
unfoldable pub free_channel : List Over → List Over → List ℕ
free_channel over rover = free_over_list over ++ free_over_list rover

-- The operations one by one, in order.
unfoldable pub handle_all : List Over → Outcome (List Handled)
handle_all [] = ok []
handle_all (o ∷ os) = do h ← handle_over o; hs ← handle_all os; ok (h ∷ hs)

walk-handle_all : (o : Over) (os : List Over) → walk o os ≡ handle_all (o ∷ os)
unfolding walk handle_all
walk-handle_all o [] = refl
walk-handle_all o (p ∷ os) = rw (walk-handle_all p os) refl

-- A completion hands every operation of the channel's list to its handler, in order and once each,
-- and stops at the first that has no handler; a channel with no operation is a null pointer read.
pub handle_event_all :
    (o : Over) (os : List Over)
    → (handle_event (o ∷ os) ≡ handle_all (o ∷ os)) × (handle_event [] ≡ undefined)
unfolding handle_event
handle_event_all o [] = (unfold handle_all in refl, refl)
handle_event_all o (p ∷ os) = (walk-handle_all o (p ∷ os), refl)

-- Of a list of operations only the last is deleted, however many there are: a list to which an
-- operation was added frees that operation and no other.
pub free_over_list-add_over :
    (os : List Over) (o : Over) → free_over_list (add_over os o) ≡ o.address ∷ []
unfolding free_over_list add_over
free_over_list-add_over [] o = refl
free_over_list-add_over (p ∷ []) o = refl
free_over_list-add_over (p ∷ q ∷ os) o = free_over_list-add_over (q ∷ os) o
