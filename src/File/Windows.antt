-- ===== src/File/Windows.antt =====
-- hulatang/base/platform/win32/File.cpp: a file descriptor on Windows, which marks a socket in its highest bit.
-- What the system answers is an argument.
pub mod Handles
mod Examples
use hulatang_io.Base.{
  ℕ, ◌+◌, ◌-◌, ◌%◌, ◌^◌, List, [], ◌∷◌, ◌++◌, Bool, true, false, not, ◌||◌, ◌==◌, ltb, leb,
  if◌then◌else◌, bit_and, bit_or, Option, none, some, Outcome, ok, aborted, ◌>>=◌, ◌>>◌, assert,
}
use hulatang_io.File.{
  FileErrorCode, connecting, eof, reset, Answer, returned, failed, read_flag, write_flag,
}

-- `socketFlag`, the bit 63 of a 64-bit handle: a number from this one on has it.
abbrev pub socket_flag : ℕ
socket_flag = 2 ^ 63

abbrev pub is_socket : ℕ → Bool
is_socket fd = leb socket_flag fd

-- `fd & (~socketFlag)`
abbrev pub unmarked : ℕ → ℕ
unmarked fd = fd % 2 ^ 63

-- `OFlag::EXEC`, and the access rights of winnt.h
abbrev pub exec_flag : ℕ
exec_flag = 4

abbrev pub generic_read : ℕ
generic_read = 2147483648

abbrev pub generic_write : ℕ
generic_write = 1073741824

abbrev pub generic_execute : ℕ
generic_execute = 536870912

abbrev or_if : Bool → ℕ → ℕ → ℕ
or_if c bit access = if c then bit_or access bit else access

-- `impl::buildAccess`
unfoldable pub build_rights : ℕ → ℕ
build_rights oflag = or_if (not (bit_and oflag exec_flag == 0)) generic_execute (
    or_if (not (bit_and oflag write_flag == 0)) generic_write
      (or_if (not (bit_and oflag read_flag == 0)) generic_read 0))

-- `operationType` of an operation's data
pub data OpType : Type 0 where
  none_op open_op read_op write_op : OpType

-- `position` is the pointer in the overlapped data.
pub record Impl : Type 0 where
  pub fd : ℕ
  pub af : ℕ
  pub recv_type : OpType
  pub send_type : OpType
  pub position : ℕ

-- What is given back to the system: by CloseHandle, or by closesocket.
pub data Closed : Type 0 where
  closed_handle closed_socket : ℕ → Closed

pub record WinFile : Type 0 where
  pub impl : Option Impl
  pub closed : List Closed

abbrev pub new_impl : ℕ → Impl
new_impl fd = record { fd = fd; af = 0; recv_type = none_op; send_type = none_op; position = 0 }

abbrev pub has_impl : WinFile → Bool
has_impl f = elim f.impl [ none ↦ false | some i ↦ true ]

-- `assert(impl)`, and what follows with it
abbrev with_impl : {B : Type 0} → WinFile → (Impl → Outcome B) → Outcome B
with_impl f k = elim f.impl [ none ↦ aborted | some i ↦ k i ]

-- `FileDescriptor(fd)`
unfoldable pub win_file_of : ℕ → List Closed → WinFile
win_file_of fd closed = record { impl = some (new_impl fd); closed = closed }

unfoldable pub win_get_fd : WinFile → Outcome ℕ
win_get_fd f = with_impl f λ i. ok (unmarked i.fd)

-- `impl::close`
unfoldable pub close_fd : ℕ → Closed
close_fd fd = if is_socket fd then closed_socket (unmarked fd) else closed_handle fd

unfoldable pub win_close : WinFile → Outcome WinFile
win_close f = with_impl f λ i. ok (record { impl = none; closed = f.closed ++ close_fd i.fd ∷ [] })

-- the destructor
unfoldable pub win_destroy : WinFile → Outcome WinFile
win_destroy f = if has_impl f then win_close f else ok f

-- `open` and `create`: a failure of CreateFile sets no condition.
unfoldable pub win_open : Answer → WinFile → Outcome (WinFile × Option FileErrorCode)
win_open (returned handle) f = do
  assert (not (has_impl f))
  ok (record f { impl = some (new_impl handle) }, none)
win_open (failed err) f = do assert (not (has_impl f)); ok (f, none)

-- `lseek`: the new place, or none for -1
unfoldable pub win_lseek : Answer → WinFile → Outcome (Option ℕ)
win_lseek answer f = with_impl f λ i.
    if is_socket i.fd then aborted else ok (elim answer [ returned n ↦ some n | failed err ↦ none ])

unfoldable pub win_update_position : ℕ → WinFile → Outcome WinFile
win_update_position position f =
    with_impl f λ i. ok (record f { impl = some (record i { position = position }) })

-- `socket`: a failure is not told; where ioctlsocket fails, the socket is not closed.
unfoldable pub win_socket : Answer → Bool → WinFile → Outcome WinFile
win_socket (failed err) nonblocking f = do assert (not (has_impl f)); ok f
win_socket (returned fd) nonblocking f = do
  assert (not (has_impl f))
  if nonblocking
      then (assert (not (is_socket fd))
          >> ok (record f { impl = some (new_impl (fd + socket_flag)) }))
      else ok f

-- `bind`; `af` is the family of the address. Where the call fails, the socket is closed and stays stored.
unfoldable pub win_bind : Answer → ℕ → WinFile → Outcome WinFile
win_bind answer af f = with_impl f λ i. do
  assert (is_socket i.fd)
  ok (elim answer [
    | returned n ↦ record f { impl = some (record i { af = af }) }
    | failed err ↦ record f { closed = f.closed ++ closed_socket (unmarked i.fd) ∷ [] }
  ])

-- `listen`, whose failures are not told
unfoldable pub win_listen : WinFile → Outcome (Option FileErrorCode)
win_listen f = with_impl f λ i. assert (is_socket i.fd) >> ok none

-- `accept`: `impl::accept` does nothing.
unfoldable pub win_accept : WinFile → WinFile → Outcome (WinFile × Option FileErrorCode)
win_accept fd f = with_impl f λ i. do
  assert (not (has_impl fd))
  ok (record fd { impl = some (record (new_impl 0) { recv_type = open_op }) }, none)

-- `connect`, whose body is a comment
unfoldable pub win_connect : WinFile → Outcome (Option FileErrorCode)
win_connect f = with_impl f λ i. ok none

-- How many bytes `impl::read` asks for: no more than there are behind the place.
unfoldable pub read_length : ℕ → ℕ → ℕ → ℕ
read_length position len file_size =
    if ltb file_size position
    then 0
    else if ltb file_size (position + len)
    then file_size - position
    else len

-- ERROR_IO_PENDING, WSAECONNABORTED and WSAECONNRESET
abbrev pub io_pending : ℕ
io_pending = 997

abbrev pub conn_aborted : ℕ
conn_aborted = 10053

abbrev pub conn_reset : ℕ
conn_reset = 10054

-- `read` behind the calls: an error that is not listed is logged, and no condition is set.
unfoldable pub win_read_failed : ℕ → WinFile → Impl → WinFile × Option FileErrorCode
win_read_failed err f i =
    if err == io_pending
    then (record f { impl = some i }, none)
    else if err == conn_aborted
    then (record f { impl = some i }, some eof)
    else if err == conn_reset
    then (record f { impl = some i }, some reset)
    else (record f { impl = some (record i { recv_type = none_op }) }, none)

abbrev is_none_op : OpType → Bool
is_none_op none_op = true
is_none_op _ = false

-- `assert(operationType != Type::NONE)` where the operation is pending
abbrev pending_type : ℕ → OpType → Outcome (Unit {0})
pending_type err type = if err == io_pending then assert (not (is_none_op type)) else ok tt

-- `read`: what GetFileSizeEx and then ReadFile answer.
unfoldable pub win_read : Answer → Answer → WinFile → Outcome (WinFile × Option FileErrorCode)
win_read (failed err) answer f =
    with_impl f λ i. do pending_type err i.recv_type; ok (win_read_failed err f i)
win_read (returned file_size) (returned n) f =
    with_impl f λ i. ok (record f { impl = some (record i { recv_type = read_op }) }, none)
win_read (returned file_size) (failed err) f =
    with_impl f λ i. ok (win_read_failed err f (record i { recv_type = read_op }))

-- `write`: an error that is not listed ends the program.
unfoldable pub win_write : Answer → WinFile → Outcome (WinFile × Option FileErrorCode)
win_write answer f = with_impl f λ i.
    let f' : WinFile = record f { impl = some (record i { send_type = write_op }) } in
    elim answer [
      | returned n ↦ ok (f', none)
      | failed err ↦
          if err == io_pending
          then ok (f', none)
          else if err == conn_aborted || err == conn_reset
          then ok (f', some reset)
          else aborted
    ]
