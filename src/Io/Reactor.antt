-- ===== src/Io/Reactor.antt =====
-- hulatang/io/Reactor.cpp and reactor/UnixReactor.cpp: a connected socket is read into one buffer
-- and written from another. What the kernel answers is an argument.
pub mod Read
pub mod Write
mod Examples
use hulatang_io.Base.{
  ℕ, ◌+◌, ◌-◌, ◌^◌, ◌%◌, List, [], ◌∷◌, ◌++◌, Bool, true, false, not, ◌&&◌, ◌||◌, ◌==◌, ltb, leb,
  if◌then◌else◌, length, take, drop, Text, Outcome, ok, undefined, ◌>>=◌, ◌>>◌, require,
}
use hulatang_io.Buffer.{
  Buffer, sub64, readable_bytes, writable_bytes, to_string_view, store, has_written, append,
  retrieve,
}

-- the errors that the code tells apart
pub data Errno : Type 0 where
  eagain econnreset epipe : Errno
  other : ℕ → Errno

-- What a channel is told to do, in order.
pub data Action : Type 0 where
  close_called : Action
  error_called : Errno → Action
  message_called : Action
  written_called : ℕ → Action
  read_called : Action
  write_called : Action
  socket_error_read : Action

-- `readv` fills the buffers that it is given with the bytes that it read.
pub data ReadResult : Type 0 where
  read_bytes : Text → ReadResult
  read_failed : Errno → ReadResult

pub data WriteResult : Type 0 where
  wrote : ℕ → WriteResult
  write_failed : Errno → WriteResult

-- `sizeof(extrabuf)`
abbrev pub extra_size : ℕ
extra_size = 65536

-- How many bytes one `readv` may place: the writable part, and `extrabuf` where that is smaller.
abbrev pub capacity : Buffer → ℕ
capacity b =
    if ltb (writable_bytes b) extra_size then writable_bytes b + extra_size else writable_bytes b

-- the value -1 as a `size_t`
abbrev pub minus_one : ℕ
minus_one = 2 ^ 64 - 1

-- what a failed call makes the channel do, but for EAGAIN, which returns
abbrev pub on_error : Errno → List Action
on_error econnreset = close_called ∷ []
on_error epipe = close_called ∷ []
on_error e = error_called e ∷ close_called ∷ []

module _ (junk : ℕ → ℕ) where
  -- What `handleRead` does behind the call, `n` being `read_num`: `inside` is what was read into
  -- the buffer, `extra` what the second area holds.
  unfoldable pub take_in : ℕ → ℕ → Text → Buffer → Outcome Buffer
  take_in n writable extra b =
      if leb n writable
      then has_written n b
      else do b' ← has_written writable b; append junk extra (sub64 n writable) b'

  -- A read that fails does not return, but for EAGAIN: it goes on with `read_num` being -1.
  unfoldable pub read_error : Errno → Text → Buffer → Outcome (List Action × Buffer)
  read_error eagain extra b = ok ([], b)
  read_error e extra b = do
    b' ← take_in minus_one (writable_bytes b) extra b
    ok (on_error e ++ (message_called ∷ []), b')

  -- `extra` is what stands in `extrabuf` where nothing was read into it.
  unfoldable pub handle_read : ReadResult → Text → Buffer → Outcome (List Action × Buffer)
  handle_read (read_failed e) extra b = read_error e extra b
  handle_read (read_bytes []) extra b = ok (close_called ∷ [], b)
  handle_read (read_bytes (x ∷ xs)) extra b = do
    let data' = x ∷ xs
    require (leb (length data') (capacity b))
    let writable = writable_bytes b
    bytes ← store b.writer_index (take writable data') b.bytes
    b' ← take_in (length data') writable (drop writable data') (record b { bytes = bytes })
    ok (message_called ∷ [], b')

-- `handleWrite`: `callback` says whether a write callback is set. The last line is reached with
-- `num` being -1 where the call failed.
unfoldable pub handle_write : WriteResult → Bool → Buffer → Outcome (List Action × Buffer)
handle_write (write_failed eagain) callback b = ok ([], b)
handle_write (write_failed e) callback b = do b' ← retrieve minus_one b; ok (on_error e, b')
handle_write (wrote n) callback b = do
  b' ← retrieve n b
  ok ((if callback then written_called n ∷ [] else []), b')

-- The bits of `revent` that `Reactor::handleEvent` tests.
pub record Events : Type 0 where
  pub pollin : Bool
  pub pollpri : Bool
  pub pollrdhup : Bool
  pub pollout : Bool
  pub pollerr : Bool
  pub pollnval : Bool
  pub pollhup : Bool

unfoldable pub handle_event : Events → List Action
handle_event e = first_part ++ (if e.pollout then write_called ∷ [] else [])
  where
    first_part : List Action
    first_part =
        if e.pollhup && not e.pollin
        then close_called ∷ []
        else if e.pollerr || e.pollnval
        then socket_error_read ∷ []
        else if e.pollin || e.pollpri || e.pollrdhup
        then read_called ∷ []
        else []
