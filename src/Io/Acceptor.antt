-- ===== src/Io/Acceptor.antt =====
-- hulatang/io/accept/PosixAcceptor.cpp, reactor/UnixAcceptReactor.cpp and `accept` of base/Socket.cpp:
-- a listening socket, whose connections go to the loops of a pool. What the system answers is an argument.
pub mod Rounds
mod Examples
use hulatang_io.Base.{
  ℕ, List, [], ◌∷◌, ◌++◌, Bool, true, false, ◌||◌, ◌==◌, if◌then◌else◌, Option, none, some, Outcome,
  ok, aborted, ◌>>=◌, ◌>>◌,
}
use hulatang_io.File.{
  Answer, returned, failed, Fd, descriptor, minus_one, File, FileErrorCode, fd_of, hold, release,
  file_of, close, destroy, swap_file, listen_socket,
}
use hulatang_io.Io.Channel.{Channel, Poller, Op, Event, add, enable_reading}
use hulatang_io.Io.Pool.{Pool, get_next_loop}

-- The values of errno on Linux that the code tells apart.
abbrev pub emfile : ℕ
emfile = 24

-- EAGAIN, which is EWOULDBLOCK, ECONNABORTED, EINTR, EMFILE and ENFILE: there is no connection now.
abbrev pub is_quiet : ℕ → Bool
is_quiet errno = errno == 11 || errno == 103 || errno == 4 || errno == emfile || errno == 23

-- ENOBUFS, ENOMEM, EPROTO, ENOTSOCK, EOPNOTSUPP, EINVAL, EFAULT and EBADF
abbrev pub is_fatal : ℕ → Bool
is_fatal errno =
    errno == 105
    || errno == 12
    || errno == 71
    || errno == 88
    || errno == 95
    || errno == 22
    || errno == 14
    || errno == 9

-- `socket::accept`: the descriptor, and errno behind it. Any other error is logged, and the calls that follow
-- leave `later` in errno.
unfoldable pub socket_accept : ℕ → Answer → Outcome (Fd × ℕ)
socket_accept later (returned n) = ok (descriptor n, 0)
socket_accept later (failed errno) =
    if is_quiet errno
    then ok (minus_one, errno)
    else if is_fatal errno
    then aborted
    else ok (minus_one, later)

-- `handed` is the loops and descriptors of the connections, in order, `held` the descriptors that the process has,
-- and `shed` those of the connections that were accepted and closed at once. A connection is a channel on its
-- descriptor.
pub record Acceptor : Type 0 where
  pub pool : Pool
  pub idle : Option Fd
  pub handed : List (ℕ × ℕ)
  pub held : List ℕ
  pub shed : List ℕ

-- The constructor: `idleFd`, and the accepting socket `n`. The system ends the program where it gives none.
unfoldable pub new_acceptor : Answer → ℕ → Pool → List ℕ → Outcome Acceptor
new_acceptor null_device n pool held = do
  f ← file_of (fd_of null_device) (hold null_device held)
  ok (record { pool = pool; idle = f.impl; handed = []; held = n ∷ f.held; shed = [] })

-- `acceptInLoop`
unfoldable pub accept_in_loop : ℕ → Acceptor → Outcome Acceptor
accept_in_loop n a = do
  r ← get_next_loop a.pool
  f ← file_of (descriptor n) a.held
  ok (record a { pool = r.1; handed = a.handed ++ (r.0, n) ∷ []; held = f.held })

-- `if (fd >= 0) ::close(fd);`
abbrev pub dropped : Answer → List ℕ → List ℕ
dropped (returned n) held = release (descriptor n) (n ∷ held)
dropped (failed errno) held = held

-- The connection that was accepted there.
abbrev pub shed_by : Answer → List ℕ
shed_by (returned n) = n ∷ []
shed_by (failed errno) = []

-- The error callback: `accept` and `reopen` are what `::accept` and `::open` answer to a process that holds these
-- descriptors.
unfoldable pub on_accept_error :
    ℕ → (List ℕ → Answer) → (List ℕ → Answer) → Acceptor → Outcome Acceptor
on_accept_error errno accept reopen a =
    let shed : Outcome Acceptor = do
      f ← close (record { impl = a.idle; held = a.held })
      let retry = accept f.held
      let held = dropped retry f.held
      g ← file_of (fd_of (reopen held)) (hold (reopen held) held)
      let (idle, old) = swap_file f.impl g.impl
      h ← destroy (record { impl = old; held = g.held })
      ok (record a { idle = idle; held = h.held; shed = a.shed ++ shed_by retry })
    in if errno == emfile then shed else ok a

abbrev accepted : Fd × ℕ → (List ℕ → Answer) → (List ℕ → Answer) → Acceptor → Outcome Acceptor
accepted (descriptor n, errno) accept reopen a = accept_in_loop n (record a { held = n ∷ a.held })
accepted (minus_one, errno) accept reopen a = on_accept_error errno accept reopen a

-- `UnixAcceptReactor::handleRead`
unfoldable pub handle_accept :
    ℕ → (List ℕ → Answer) → (List ℕ → Answer) → Acceptor → Outcome Acceptor
handle_accept later accept reopen a = do
  r ← socket_accept later (accept a.held)
  accepted r accept reopen a

-- `UnixAcceptReactor::handleWrite`
unfoldable pub handle_accept_write : Acceptor → Outcome Acceptor
handle_accept_write a = aborted

-- One connection after the other, the system giving these descriptors.
unfoldable pub accept_each : List ℕ → Acceptor → Outcome Acceptor
accept_each [] a = ok a
accept_each (n ∷ ns) a = do
  a' ← handle_accept 0 (λ held. returned n) (λ held. returned n) a
  accept_each ns a'

module _ (K : Type 0) (ctl : Op → Event → K → Option K) where
  abbrev listening : Option FileErrorCode → Channel → Poller K → Outcome (Channel × Poller K)
  listening (some condition) c p = ok (c, p)
  listening none c p = do p' ← add K ctl c p; enable_reading K ctl c p'

  -- `listen`
  unfoldable pub acceptor_listen : Answer → File → Channel → Poller K → Outcome (Channel × Poller K)
  acceptor_listen answer f c p = do condition ← listen_socket answer f; listening condition c p
