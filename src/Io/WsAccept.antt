-- ===== src/Io/WsAccept.antt =====
-- hulatang/io/proactor/WSAcceptProactor.cpp and accept/Win32Acceptor.cpp: a listening socket on Windows, on
-- which many accepts are pending at once. What the system answers is an argument.
pub mod Pending
mod Examples
use hulatang_io.Base.{
  ℕ, zero, suc, List, [], ◌∷◌, ◌++◌, Bool, true, false, not, ◌==◌, if◌then◌else◌, Option, none,
  some, take, Outcome, ok, aborted, undefined, ◌>>=◌, ◌>>◌,
}
use hulatang_io.File.{Answer}
use hulatang_io.File.Windows.{WinFile, win_socket, win_bind, win_listen, win_get_fd}
use hulatang_io.Io.FdTable.{Table}
use hulatang_io.Io.Iocp
use hulatang_io.Io.Pool.{Pool, get_next_loop}

-- `AcceptOverlapped`: its address, and the socket that it waits with.
pub record Accept : Type 0 where
  pub address : ℕ
  pub sockfd : ℕ

-- `simultaneousAccepts`
abbrev pub simultaneous_accepts : ℕ
simultaneous_accepts = 32

-- `over` is the operations of the channel, `handed` the loops and sockets of the connections, in order, `errors`
-- what handleError was called with, and `lost` what was made for accepts and is in no pending one.
pub record WsAcceptor : Type 0 where
  pub pool : Pool
  pub over : List Accept
  pub handed : List (ℕ × ℕ)
  pub errors : List ℕ
  pub lost : List ℕ

-- What the three calls of `postAccept` answer: no socket, a socket that cannot be set to return at once, and a
-- socket that AcceptEx takes or refuses.
pub data Attempt : Type 0 where
  no_socket : Attempt
  blocking : (sockfd : ℕ) → Attempt
  taken : (sockfd : ℕ) → Attempt
  refused : (sockfd err : ℕ) → Attempt

-- `postAccept(channel, over)`
unfoldable pub post_accept : Attempt → ℕ → WsAcceptor → Outcome WsAcceptor
post_accept no_socket address a = aborted
post_accept (blocking sockfd) address a = ok (record a { lost = a.lost ++ sockfd ∷ [] })
post_accept (taken sockfd) address a =
    ok (record a { over = a.over ++ record { address = address; sockfd = sockfd } ∷ [] })
post_accept (refused sockfd err) address a =
    if err == 997
    then ok (record a { over = a.over ++ record { address = address; sockfd = sockfd } ∷ [] })
    else ok (record a { errors = a.errors ++ err ∷ []; lost = a.lost ++ sockfd ∷ [] })

-- `postAccept(channel)`: one new operation for each answer, `i` being the address of the next one.
unfoldable pub post_accepts : List Attempt → ℕ → WsAcceptor → Outcome WsAcceptor
post_accepts [] i a = ok a
post_accepts (t ∷ ts) i a = do a' ← post_accept t i a; post_accepts ts (suc i) a'

-- `acceptInLoop`
unfoldable pub hand_over : ℕ → WsAcceptor → Outcome WsAcceptor
hand_over sockfd a = do
  r ← get_next_loop a.pool
  ok (record a { pool = r.1; handed = a.handed ++ (r.0, sockfd) ∷ [] })

-- `handleRead` of an operation that has left the list
unfoldable pub handle_accepted : Attempt → Accept → WsAcceptor → Outcome WsAcceptor
handle_accepted t op a = do a' ← hand_over op.sockfd a; post_accept t op.address a'

-- `handleWrite`
unfoldable pub handle_accepted_write : WsAcceptor → Outcome WsAcceptor
handle_accepted_write a = aborted

-- The pending operation at a place, and the others.
unfoldable pub take_out : ℕ → List Accept → Option (Accept × List Accept)
take_out i [] = none
take_out zero (op ∷ ops) = some (op, ops)
take_out (suc i) (op ∷ ops) = elim (take_out i ops) [ none ↦ none | some r ↦ some (r.0, op ∷ r.1) ]

-- One operation after the other completes, each the one at this place of those that are pending. The search for one
-- that is not pending ends in abort, and reads through null where none is.
unfoldable pub complete_accepts : List (ℕ × Attempt) → WsAcceptor → Outcome WsAcceptor
complete_accepts [] a = ok a
complete_accepts ((i, t) ∷ ts) a = elim (take_out i a.over) [
  | none ↦ elim a.over [ [] ↦ undefined | _ ∷ _ ↦ aborted ]
  | some r ↦ do a' ← handle_accepted t r.0 (record a { over = r.1 }); complete_accepts ts a'
]

-- `Acceptor` of Win32Acceptor.cpp: what WSASocketW, ioctlsocket and bind answer. Without a socket the call of `bind`
-- fails its assertion.
unfoldable pub new_accept_file : Answer → Bool → Answer → ℕ → Outcome WinFile
new_accept_file made nonblocking bound af = do
  f ← win_socket made nonblocking (record { impl = none; closed = [] })
  win_bind bound af f

-- `listen`: `channel` is the address of the channel, and the operations that are made have the addresses from `i` on.
unfoldable pub ws_listen :
    WinFile → ℕ → List Attempt → ℕ → Table → WsAcceptor → Outcome (Table × WsAcceptor)
ws_listen f channel attempts i t a = do
  condition ← win_listen f
  elim condition [
    | some e ↦ ok (t, a)
    | none ↦ do
      fd ← win_get_fd f
      t' ← Iocp.add fd channel t
      a' ← post_accepts (take simultaneous_accepts attempts) i a
      ok (t', a')
  ]
