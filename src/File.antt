-- ===== src/File.antt =====
-- hulatang/base/File.hpp and base/platform/posix/File.cpp: a file descriptor and the calls of the
-- system on it. What the system answers is an argument.
pub mod Descriptor
pub mod Local
pub mod Windows
mod Examples
use hulatang_io.Base.{
  ℕ, List, [], ◌∷◌, Bool, true, false, not, ◌&&◌, ◌||◌, ◌==◌, if◌then◌else◌, bit_and, bit_or,
  Option, none, some, Outcome, ok, aborted, undefined, thrown, ◌>>=◌, ◌>>◌, assert,
}

-- `FileErrorCode`; `none` of an Option stands for NONE.
pub data FileErrorCode : Type 0 where
  connecting error reset eof not_found deadline_exceeded out_of_range already_exists
        permission_denied resource_exhausted failed_precondition connection_refused :
      FileErrorCode

-- The value of an enumerator: NOT_FOUND is given that of _ERROR, and the count goes on from there.
unfoldable pub error_value : FileErrorCode → ℕ
error_value connecting = 1
error_value error = 2
error_value reset = 3
error_value eof = 4
error_value not_found = 2
error_value deadline_exceeded = 3
error_value out_of_range = 4
error_value already_exists = 5
error_value permission_denied = 6
error_value resource_exhausted = 7
error_value failed_precondition = 8
error_value connection_refused = 9

-- the bits of `OFlag`
abbrev pub read_flag : ℕ
read_flag = 1

abbrev pub write_flag : ℕ
write_flag = 2

-- The flags of Linux, from fcntl.h.
abbrev pub o_rdonly : ℕ
o_rdonly = 0

abbrev pub o_wronly : ℕ
o_wronly = 1

abbrev pub o_rdwr : ℕ
o_rdwr = 2

abbrev pub o_creat : ℕ
o_creat = 64

abbrev pub o_nonblock : ℕ
o_nonblock = 2048

abbrev pub o_cloexec : ℕ
o_cloexec = 524288

-- The bits that the value of `buildAccess` has.
unfoldable pub build_access : ℕ → ℕ
build_access oflag =
    let wants_read = not (bit_and oflag read_flag == 0) in
    let wants_write = not (bit_and oflag write_flag == 0) in
    let both = if wants_read && wants_write then bit_or 0 o_rdwr else 0 in
    let read = if wants_read then bit_or both o_rdonly else both in
    let written = if wants_write then bit_or read o_wronly else read in
    bit_or written (bit_or o_nonblock o_cloexec)

-- An `int` that a call of the system returns: a descriptor, or -1.
pub data Fd : Type 0 where
  descriptor : ℕ → Fd
  minus_one : Fd

-- What a call answers: a number, or -1 with `errno`.
pub data Answer : Type 0 where
  returned : ℕ → Answer
  failed : ℕ → Answer

abbrev pub fd_of : Answer → Fd
fd_of (returned n) = descriptor n
fd_of (failed errno) = minus_one

-- A FileDescriptor is `impl`, and `held` is the descriptors that the system has given to the process
-- and not taken back.
pub record File : Type 0 where
  pub impl : Option Fd
  pub held : List ℕ

abbrev pub has_impl : File → Bool
has_impl f = elim f.impl [ none ↦ false | some fd ↦ true ]

-- `::close`, whose failure is logged
unfoldable pub release : Fd → List ℕ → List ℕ
release minus_one held = held
release (descriptor n) [] = []
release (descriptor n) (m ∷ ms) =
    let rest = release (descriptor n) ms in if m == n then ms else m ∷ rest

-- What a call that makes a descriptor adds.
abbrev pub hold : Answer → List ℕ → List ℕ
hold (returned n) held = n ∷ held
hold (failed errno) held = held

-- `FileDescriptor(fd)`
unfoldable pub file_of : Fd → List ℕ → Outcome File
file_of minus_one held = aborted
file_of (descriptor n) held = ok (record { impl = some (descriptor n); held = held })

unfoldable pub get_fd : File → Outcome Fd
get_fd f = elim f.impl [ none ↦ aborted | some fd ↦ ok fd ]

unfoldable pub close : File → Outcome File
close f = elim f.impl [
  | none ↦ aborted
  | some fd ↦ ok (record { impl = none; held = release fd f.held })
]

-- the destructor
unfoldable pub destroy : File → Outcome File
destroy f = if has_impl f then close f else ok f

-- The move constructor: what is left of the other, and the new one.
unfoldable pub move_file : File → Option Fd × Option Fd
move_file other = (none, other.impl)

unfoldable pub swap_file : Option Fd → Option Fd → Option Fd × Option Fd
swap_file a b = (b, a)

-- `open`: the descriptor that the system returns is not stored, and no condition is set.
unfoldable pub open_file : Answer → File → Outcome (File × Option FileErrorCode)
open_file answer f = do assert (not (has_impl f)); ok (record f { held = hold answer f.held }, none)

-- `create`: the switch over `errno` does nothing.
unfoldable pub create_file : Answer → File → Outcome (File × Option FileErrorCode)
create_file answer f = do
  assert (not (has_impl f))
  ok (record { impl = some (fd_of answer); held = hold answer f.held }, none)

-- `lseek` has no `return`.
unfoldable pub lseek : File → Outcome ℕ
lseek f = do assert (has_impl f); undefined

unfoldable pub open_socket : Answer → File → Outcome File
open_socket (failed errno) f = do assert (not (has_impl f)); aborted
open_socket (returned n) f = do
  assert (not (has_impl f))
  ok (record { impl = some (descriptor n); held = n ∷ f.held })

-- `bind`, whose failures are logged
unfoldable pub bind_socket : File → Outcome File
bind_socket f = do assert (has_impl f); ok f

-- EBADF, ENOTSOCK and EOPNOTSUPP
abbrev pub is_misuse : ℕ → Bool
is_misuse errno = errno == 9 || errno == 88 || errno == 95

unfoldable pub listen_socket : Answer → File → Outcome (Option FileErrorCode)
listen_socket (returned n) f = do assert (has_impl f); ok none
listen_socket (failed errno) f = do assert (has_impl f); if is_misuse errno then thrown else ok none

unfoldable pub accept_file : File → File → Outcome (Option FileErrorCode)
accept_file fd f = do assert (has_impl f); assert (not (has_impl fd)); ok (some connecting)

-- `connect`; 115 is EINPROGRESS.
unfoldable pub connect_socket : Answer → File → Outcome (Option FileErrorCode)
connect_socket (returned n) f = do assert (has_impl f); ok none
connect_socket (failed errno) f = do
  assert (has_impl f)
  ok (some (if errno == 115 then connecting else connection_refused))

-- `read` and `write` do nothing on this platform.
unfoldable pub read_file : File → Outcome (Option FileErrorCode)
read_file f = do assert (has_impl f); ok none

unfoldable pub write_file : File → Outcome (Option FileErrorCode)
write_file f = do assert (has_impl f); ok none
