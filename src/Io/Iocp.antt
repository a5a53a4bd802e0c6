-- ===== src/Io/Iocp.antt =====
-- hulatang/io/async/IOCPFdEventManager.cpp: completions of overlapped operations are taken from a completion port
-- and given to the channels. What is dequeued is an argument; an operation is its address and its type.
pub mod Completion
mod Examples
use hulatang_io.Base.{
  ℕ, List, [], ◌∷◌, ◌++◌, Bool, true, false, ◌||◌, ◌==◌, if◌then◌else◌, Option, none, some, Outcome,
  ok, aborted, undefined, ◌>>=◌, ◌>>◌,
}
use hulatang_io.Io.FdTable
use hulatang_io.Io.FdTable.{Table}
use hulatang_io.Io.Proactor.{Over, update_type, Handled, handle_event, free_channel}

-- The operations of a channel: those that are pending, and those that have completed.
pub record Lists : Type 0 where
  pub over : List Over
  pub rover : List Over

-- The search behind the first operation: `over` is null where it ends.
unfoldable pub unlink_rest : ℕ → List Over → Outcome (Over × List Over)
unlink_rest a [] = aborted
unlink_rest a (o ∷ os) =
    let rest = unlink_rest a os in
    if o.address == a then ok (o, os) else (rest >>= λ r. ok (r.0, o ∷ r.1))

-- The operation that has completed, and the others. The first is looked at before it is tested.
unfoldable pub unlink : ℕ → List Over → Outcome (Over × List Over)
unlink a [] = undefined
unlink a (o ∷ os) =
    if o.address == a then ok (o, os) else (unlink_rest a os >>= λ r. ok (r.0, o ∷ r.1))

-- One completion: the operation goes to the front of `rover`, and the handler empties that list.
unfoldable pub complete_one : ℕ → Lists → Outcome (List Handled × Lists)
complete_one a c = do
  r ← unlink a c.over
  hs ← handle_event (r.0 ∷ c.rover)
  ok (hs, record { over = r.1; rover = [] })

-- What GetQueuedCompletionStatus answers: the key WAKEUP_NUMBER, a completion of an operation of the channel
-- `key`, which may have failed, or nothing of these.
pub data Dequeued : Type 0 where
  woken : Dequeued
  completed : (key address : ℕ) → Dequeued
  failed_with : (err key address : ℕ) → Dequeued

abbrev pub Channels : Type 0
Channels = ℕ → Option Lists

abbrev pub put : ℕ → Lists → Channels → Channels
put key c cs = λ k. if k == key then some c else cs k

-- WAIT_TIMEOUT and ERROR_OPERATION_ABORTED
abbrev pub ends_round : ℕ → Bool
ends_round err = err == 258 || err == 995

-- The loop of `process`, over what is dequeued until the time has come.
unfoldable pub process : List Dequeued → Channels → Outcome (List Handled × Channels)
process [] cs = ok ([], cs)
process (woken ∷ ds) cs = ok ([], cs)
process (completed key a ∷ ds) cs = elim (cs key) [
  | none ↦ ok ([], cs)
  | some c ↦ do r ← complete_one a c; q ← process ds (put key r.1 cs); ok (r.0 ++ q.0, q.1)
]
process (failed_with err key a ∷ ds) cs =
    let skipped = process ds cs in
    if ends_round err then ok ([], cs) else elim (cs key) [
      | none ↦ skipped
      | some c ↦ do r ← complete_one a c; q ← process ds (put key r.1 cs); ok (r.0 ++ q.0, q.1)
    ]

-- `add`: the table, and the port, whose answer is not read.
unfoldable pub add : ℕ → ℕ → Table → Outcome Table
add fd channel t = FdTable.add fd channel t

-- `update`: an operation of the type UPDATE stands before those of `rover`.
unfoldable pub update : ℕ → Lists → Outcome (List Handled × Lists)
update a c = do
  hs ← handle_event (record { address = a; type = update_type } ∷ c.rover)
  ok (hs, record c { rover = [] })

-- `cancel`: what is freed, and the table.
unfoldable pub cancel : ℕ → Lists → Table → Outcome (List ℕ × Table)
cancel fd c t = do t' ← FdTable.cancel fd t; ok (free_channel c.over c.rover, t')
