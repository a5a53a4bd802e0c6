-- ===== src/Io/WsProactor.antt =====
-- hulatang/io/proactor/WSProactor.cpp: a connected socket is read into one buffer and written from
-- another by overlapped operations. What WSARecv and WSASend answer, and the addresses of the storages, are
-- arguments.
pub mod Sending
pub mod Receiving
mod Examples
use hulatang_io.Base.{
  ℕ, ◌+◌, ◌%◌, ◌^◌, List, [], ◌∷◌, ◌++◌, Bool, true, false, not, ◌&&◌, ◌||◌, ◌==◌, ltb,
  if◌then◌else◌, length, Text, Outcome, ok, ◌>>=◌, ◌>>◌, assert,
}
use hulatang_io.Buffer.{
  Buffer, readable_bytes, writable_bytes, has_written, append, ensure_writable_bytes, retrieve,
}
use hulatang_io.Io.Proactor.{
  OverType, none_type, read_type, write_type, open_type, close_type, update_type,
}

-- `StreamOverlapped`
pub record Stream : Type 0 where
  pub address : ℕ
  pub type : OverType
  pub data_at : ℕ
  pub len : ℕ
  pub transferred : ℕ

-- What the channel and its owner are told, in order.
pub data Notice : Type 0 where
  close_called : Notice
  error_called : ℕ → Notice
  message_called : Notice
  written_called : (data_at len : ℕ) → Notice
  freed : ℕ → Notice

-- `over` is the list of the channel's operations, and `tells_written` whether there is a `writeCallback`.
pub record WsProactor : Type 0 where
  pub read_buf : Buffer
  pub write_buf : Buffer
  pub over : List Stream
  pub writing : Bool
  pub tells_written : Bool
  pub notices : List Notice

-- The error codes that the code tells apart, from winsock2.h.
abbrev pub wsa_io_pending : ℕ
wsa_io_pending = 997

abbrev pub wsa_would_block : ℕ
wsa_would_block = 10035

abbrev pub wsa_aborted : ℕ
wsa_aborted = 10053

abbrev pub wsa_reset : ℕ
wsa_reset = 10054

abbrev pub min_recv_buffer_size : ℕ
min_recv_buffer_size = 1024

-- What WSARecv or WSASend with an overlapped operation answers: 0, or SOCKET_ERROR.
pub data Posted : Type 0 where
  returned : Posted
  socket_error : ℕ → Posted

-- What WSARecv without an overlapped operation answers: bytes, or SOCKET_ERROR.
pub data Recv : Type 0 where
  received : Text → Recv
  recv_error : ℕ → Recv

abbrev pub notify : Notice → WsProactor → WsProactor
notify n p = record p { notices = p.notices ++ n ∷ [] }

-- `error`
unfoldable pub ws_error : ℕ → WsProactor → WsProactor
ws_error err p =
    if err == wsa_aborted || err == wsa_reset
    then notify close_called p
    else notify close_called (notify (error_called err) p)

-- `err != WSA_IO_PENDING` behind SOCKET_ERROR
abbrev pub fails : Posted → Bool
fails returned = false
fails (socket_error err) = not (err == wsa_io_pending)

abbrev pub code_of : Posted → ℕ
code_of returned = 0
code_of (socket_error err) = err

abbrev pub ulong : ℕ → ℕ
ulong n = n % 2 ^ 32

-- `addOver`
abbrev pub add_stream : Stream → WsProactor → WsProactor
add_stream op p = record p { over = p.over ++ op ∷ [] }

-- The operation is in the list before the call, and is filled in only behind it.
abbrev pub posted : Posted → Stream → Stream → WsProactor → WsProactor
posted answer op filled p =
    if fails answer
    then ws_error (code_of answer) (add_stream (record op { type = none_type }) p)
    else add_stream filled p

-- `postSend`; `base` is the address of the storage of the send buffer.
unfoldable pub post_send : ℕ → Posted → Stream → WsProactor → Outcome WsProactor
post_send base answer op p = do
  assert (ltb 0 (readable_bytes p.write_buf))
  ok (
      posted answer op
        (record op {
          type = write_type;
          data_at = base + p.write_buf.reader_index;
          len = ulong (readable_bytes p.write_buf);
        })
        p)

-- `if (writeCallback) writeCallback(...)`
abbrev pub told_written : Stream → WsProactor → List Notice
told_written op p =
    if p.tells_written then p.notices ++ written_called op.data_at op.len ∷ [] else p.notices

-- `handleWrite`
unfoldable pub handle_write : ℕ → Posted → Stream → WsProactor → Outcome WsProactor
handle_write base answer op p = do
  b ← retrieve op.len p.write_buf
  let p' = record p { write_buf = b; notices = told_written op p }
  if ltb 0 (readable_bytes b)
      then post_send base answer op p'
      else ok (notify (freed op.address) (record p' { writing = false }))

abbrev is_write : OverType → Bool
is_write write_type = true
is_write none_type = false
is_write read_type = false
is_write open_type = false
is_write close_type = false
is_write update_type = false

-- `updatePost`, the loop: whether a write of what stands at `at` is in the list
unfoldable pub sends_from : ℕ → List Stream → Bool
sends_from at [] = false
sends_from at (op ∷ ops) =
    let rest = sends_from at ops in if is_write op.type && op.data_at == at then true else rest

-- `updatePost`; `fresh` is the address of a new operation.
unfoldable pub update_post : ℕ → ℕ → Posted → WsProactor → Outcome WsProactor
update_post base fresh answer p =
    if not p.writing || readable_bytes p.write_buf == 0
    then ok p
    else if sends_from (base + p.write_buf.reader_index) p.over
    then ok p
    else post_send base answer
        (record { address = fresh; type = none_type; data_at = 0; len = 0; transferred = 0 }) p

module _ (junk : ℕ → ℕ) where
  -- `postRecv`; `base` is the address of the storage of the receive buffer behind
  -- `ensureWritableBytes`.
  unfoldable pub post_recv : ℕ → Posted → Stream → WsProactor → Outcome WsProactor
  post_recv base answer op p = do
    b ← ensure_writable_bytes junk min_recv_buffer_size p.read_buf
    ok (
        posted answer op
          (record op {
            type = read_type;
            data_at = base + b.writer_index;
            len = ulong (writable_bytes b);
            transferred = 0;
          })
          (record p { read_buf = b }))

  -- `handleRead` behind the further read: the callback, and the next operation.
  unfoldable pub next_recv : ℕ → Posted → Stream → WsProactor → Outcome WsProactor
  next_recv base answer op p = post_recv base answer op (notify message_called p)

  abbrev append_some : Text → Buffer → Outcome Buffer
  append_some xs b = if ltb 0 (length xs) then append junk xs (length xs) b else ok b

  -- `handleRead`, where the operation has filled the buffer: what more can be read now.
  unfoldable pub read_more : ℕ → Recv → Posted → Stream → WsProactor → Outcome WsProactor
  read_more base (received xs) answer op p = do
    b ← append_some xs p.read_buf
    next_recv base answer op (record p { read_buf = b })
  read_more base (recv_error err) answer op p =
      let grown : Outcome WsProactor = do
        b ← ensure_writable_bytes junk min_recv_buffer_size p.read_buf
        next_recv base answer op (record p { read_buf = b })
      in if err == wsa_would_block then grown else ok (ws_error err p)

  -- `handleRead`; the bytes that the operation has read stand in the storage of the receive buffer.
  unfoldable pub handle_read : ℕ → Recv → Posted → Stream → WsProactor → Outcome WsProactor
  handle_read base more answer op p = do
    b ← has_written op.transferred p.read_buf
    let p' : WsProactor = record p { read_buf = b }
    if op.transferred == 0
        then ok (notify close_called p')
        else if op.transferred == writable_bytes p.read_buf
        then read_more base more answer op p'
        else next_recv base answer op p'

  -- the constructor, on a channel with no operation
  unfoldable pub new_ws_proactor : ℕ → Posted → ℕ → Bool → Buffer → Buffer → Outcome WsProactor
  new_ws_proactor base answer fresh tells_written recv_buf send_buf =
      post_recv base answer
        (record { address = fresh; type = none_type; data_at = 0; len = 0; transferred = 0 })
        (record {
          read_buf = recv_buf;
          write_buf = send_buf;
          over = [];
          writing = false;
          tells_written = tells_written;
          notices = [];
        })
