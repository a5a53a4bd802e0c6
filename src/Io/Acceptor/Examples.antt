-- ===== src/Io/Acceptor/Examples.antt =====
-- An acceptor over two loops.
use hulatang_io.Base.{
  ℕ, List, length, ltb, if◌then◌else◌, ◌≡◌, refl, [], ◌∷◌, some, false, arith, ok, aborted,
  Succeeds,
}
use hulatang_io.File.{Answer, returned, failed, descriptor, minus_one}
use hulatang_io.Io.Status.{running}
use hulatang_io.Io.Pool.{Pool, somes}
use hulatang_io.Io.Channel.{Channel, Poller}
use hulatang_io.Io.FdTable.{new_table}
use hulatang_io.Io.TestKernel.{Known, ctl}
use hulatang_io.Io.Acceptor.{
  Acceptor, emfile, socket_accept, handle_accept, accept_each, acceptor_listen,
}
use hulatang_io.Io.Acceptor.Rounds.{
  loops_of, fds_of, accept_each_lem, handle_accept-exhausted, acceptor_listen-failed,
}

abbrev two : Pool
two = record {
  loops = 100 ∷ 101 ∷ [];
  threads = 101 ∷ [];
  base_loop = 100;
  num_threads = 2;
  next = 0;
  status = running;
}

abbrev listening : Acceptor
listening = record {
  pool = two;
  idle = some (descriptor 3);
  handed = [];
  held = 3 ∷ 4 ∷ [];
  shed = [];
}

-- A lack of memory ends the program; an error that is not listed gives -1.
socket_accept_no_memory :
    (socket_accept 9 (failed 12) ≡ aborted) × (socket_accept 9 (failed 1) ≡ ok (minus_one, 9))
unfolding socket_accept
socket_accept_no_memory = (refl, refl)

accept_each_three : Succeeds (accept_each (5 ∷ 6 ∷ 7 ∷ []) listening) λ a'.
    (somes (loops_of a'.handed) ≡ some 101 ∷ some 100 ∷ some 101 ∷ [])
    × (fds_of a'.handed ≡ 5 ∷ 6 ∷ 7 ∷ [])
accept_each_three = accept_each_lem (5 ∷ 6 ∷ 7 ∷ []) listening (omega arith) refl

-- The system gives a process two descriptors.
abbrev two_at_most : ℕ → List ℕ → Answer
two_at_most n held = if ltb (length held) 2 then returned n else failed emfile

handle_accept-exhausted_example :
    Succeeds (handle_accept 0 (two_at_most 3) (two_at_most 3) listening) λ a'.
      (a'.shed ≡ 3 ∷ [])
      × (a'.idle ≡ some (descriptor 3))
      × (a'.held ≡ 3 ∷ 4 ∷ [])
      × (a'.handed ≡ [])
      × (a'.pool ≡ two)
handle_accept-exhausted_example =
    handle_accept-exhausted 0 3 3 3 (two_at_most 3) (two_at_most 3) listening (4 ∷ []) refl refl
      refl refl refl

abbrev channel : Channel
channel = record {
  address = 77;
  fd = 4;
  reading = false;
  writing = false;
  use_over = false;
  revent = 0;
}

abbrev poller : Poller Known
poller = record { table = new_table; kernel = λ fd. false }

-- 98 is EADDRINUSE.
acceptor_listen_busy :
    acceptor_listen Known ctl
      (failed 98)
      (record { impl = some (descriptor 4); held = 4 ∷ [] })
      channel
      poller
    ≡ acceptor_listen Known ctl
        (returned 0)
        (record { impl = some (descriptor 4); held = 4 ∷ [] })
        channel
        poller
acceptor_listen_busy =
    acceptor_listen-failed Known ctl 98 (record { impl = some (descriptor 4); held = 4 ∷ [] })
      channel poller refl
