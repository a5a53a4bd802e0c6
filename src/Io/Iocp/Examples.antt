-- ===== src/Io/Iocp/Examples.antt =====
-- Completions of a channel with three operations.
use hulatang_io.Base.{◌≡◌, refl, [], ◌∷◌, none, some, ok, arith, Succeeds}
use hulatang_io.Io.Proactor.{
  Over, read_type, write_type, read_handled, write_handled, handle_over, handle_event,
}
use hulatang_io.Io.Iocp.{
  Lists, Channels, put, complete_one, process, completed, failed_with, woken, unlink, unlink_rest,
}
use hulatang_io.Io.Iocp.Completion.{lacks, lacks_none, complete_one_lem}

abbrev reads : Over
reads = record { address = 1; type = read_type }

abbrev writes : Over
writes = record { address = 2; type = write_type }

abbrev busy : Lists
busy = record { over = reads ∷ writes ∷ []; rover = [] }

abbrev channels : Channels
channels = put 7 busy (λ key. none)

-- Both complete in one round, the second first; what comes behind a wakeup stays for the next round.
process_two :
    Succeeds
      (process (completed 7 2 ∷ completed 7 1 ∷ woken ∷ completed 7 3 ∷ []) channels)
      λ r. r.0 ≡ write_handled 2 ∷ read_handled 1 ∷ []
unfolding process complete_one unlink unlink_rest handle_event handle_over
process_two = (_, refl, refl)

-- A cancelled operation ends the round, and stays in its list.
process_cancelled :
    Succeeds
      (process (failed_with 995 7 1 ∷ completed 7 2 ∷ []) channels)
      λ r. (r.0 ≡ []) × (r.1 7 ≡ some busy)
unfolding process
process_cancelled = (_, refl, (refl, refl))

complete_one_lem_example :
    complete_one 2 busy ≡ ok (write_handled 2 ∷ [], record { over = reads ∷ []; rover = [] })
unfolding handle_over
complete_one_lem_example =
    complete_one_lem writes (reads ∷ []) [] (write_handled 2) (lacks (omega arith) lacks_none) refl
