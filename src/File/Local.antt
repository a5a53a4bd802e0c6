-- ===== src/File/Local.antt =====
-- hulatang/file/LocalFile.cpp: a file that is read and written by operations that complete later, in the
-- thread of its loop. What the descriptor answers, and what the read callback does to the buffer, are
-- arguments: FdEventWatcher, by which completions arrive, is no part of the repository.
pub mod ReadAll
mod Examples
use hulatang_io.Base.{
  ℕ, zero, suc, ◌+◌, ◌%◌, ◌^◌, List, [], ◌∷◌, ◌++◌, Bool, true, false, not, ◌&&◌, ◌==◌,
  if◌then◌else◌, Option, none, some, Text, Outcome, ok, aborted, thrown, diverged, ◌>>=◌, ◌>>◌,
  assert,
}
use hulatang_io.Buffer.{Buffer, ensure_writable_bytes, has_written, retrieve_all, to_string_view}
use hulatang_io.File.{File, FileErrorCode, close}

-- The calls of the callbacks, in order; that of the read callback with what stands in the buffer.
pub data Notice : Type 0 where
  open_called write_called : Notice
  read_called : Text → Notice
  error_called : FileErrorCode → Notice

-- `watched` tells whether `watcher_` has not expired, and `can_read` and `can_write` whether there are callbacks.
pub record LocalFile : Type 0 where
  pub fd : File
  pub watched : Bool
  pub pos : ℕ
  pub read_buffer : Buffer
  pub writing : Bool
  pub reading : Bool
  pub reading_all : Bool
  pub can_read : Bool
  pub can_write : Bool
  pub notices : List Notice

-- the constructor, with the buffer and the descriptor that it makes
unfoldable pub new_local_file : File → Buffer → LocalFile
new_local_file fd buffer = record {
  fd = fd;
  watched = false;
  pos = 0;
  read_buffer = buffer;
  writing = false;
  reading = false;
  reading_all = false;
  can_read = false;
  can_write = false;
  notices = [];
}

-- `if (readCallback_) readCallback_(readBuffer_);`
abbrev pub read_notices : Bool → Text → List Notice
read_notices true text = read_called text ∷ []
read_notices false text = []

unfoldable pub on_open : LocalFile → LocalFile
on_open f = record f { notices = f.notices ++ open_called ∷ [] }

unfoldable pub on_error : FileErrorCode → LocalFile → LocalFile
on_error e f = record f { notices = f.notices ++ error_called e ∷ [] }

-- `pos_ += offset` on a uint64_t
unfoldable pub update_position : ℕ → LocalFile → LocalFile
update_position offset f = record f { pos = (f.pos + offset) % 2 ^ 64 }

-- `inLoopOpen` and `inLoopCreate`, which differ in the call of the descriptor. A watcher that is not added has
-- expired at the end of the call.
unfoldable pub in_loop_open :
    (File → Outcome (File × Option FileErrorCode)) → LocalFile → Outcome LocalFile
in_loop_open open_call f = do
  r ← open_call f.fd
  ok (elim r.1 [
    | some e ↦ on_error e (record f { fd = r.0; watched = false })
    | none ↦ on_open (record f { fd = r.0; watched = true })
  ])

unfoldable pub in_loop_close : LocalFile → Outcome LocalFile
in_loop_close f = do assert f.watched; fd ← close f.fd; ok (record f { fd = fd; watched = false })

-- the destructor
unfoldable pub destroy_local : LocalFile → Outcome LocalFile
destroy_local f = if f.watched then in_loop_close f else ok f

unfoldable pub in_loop_write : Outcome (Option FileErrorCode) → LocalFile → Outcome LocalFile
in_loop_write answer f = do
  ec ← answer
  ok (elim ec [ some e ↦ on_error e f | none ↦ record f { writing = true } ])

unfoldable pub in_loop_seek : Outcome (Option FileErrorCode) → LocalFile → Outcome LocalFile
in_loop_seek answer f = do
  ec ← answer
  let f' : LocalFile = record f { read_buffer = retrieve_all f.read_buffer }
  ok (elim ec [ some e ↦ on_error e f' | none ↦ f' ])

-- `seek` in the thread of the loop calls itself.
unfoldable pub seek : ℕ → ℕ → LocalFile → Outcome LocalFile
seek zero offset f = diverged
seek (suc fuel) offset f = seek fuel offset f

-- The callback is called whether there is one or not.
unfoldable pub on_write : ℕ → LocalFile → Outcome LocalFile
on_write size f =
    let f' = update_position size (record f { writing = false }) in
    if f.can_write then ok (record f' { notices = f'.notices ++ write_called ∷ [] }) else thrown

module _ (junk : ℕ → ℕ) where
  unfoldable pub in_loop_read : ℕ → Outcome (Option FileErrorCode) → LocalFile → Outcome LocalFile
  in_loop_read size answer f = do
    b ← ensure_writable_bytes junk size f.read_buffer
    let f' : LocalFile = record f { read_buffer = b }
    ec ← answer
    ok (elim ec [ some e ↦ on_error e f' | none ↦ record f' { reading = true } ])

  -- `readsize` is 4096.
  unfoldable pub in_loop_read_all : Outcome (Option FileErrorCode) → LocalFile → Outcome LocalFile
  in_loop_read_all answer f = do
    f' ← in_loop_read 4096 answer f
    ok (record f' { reading_all = true })

  -- `onRead`, `at` being the place in the storage that `data` points to. `consume` is what the read callback does
  -- to the buffer.
  unfoldable pub on_read :
      (Buffer → Buffer) → ℕ → ℕ → Outcome (Option FileErrorCode) → LocalFile → Outcome LocalFile
  on_read consume at size answer f = do
    assert (at == f.read_buffer.writer_index)
    b ← has_written size f.read_buffer
    let f' = update_position size (record f { read_buffer = b })
    if f.reading_all && not (size == 0)
        then in_loop_read_all answer f'
        else ok (record f' {
          reading = false;
          reading_all = false;
          read_buffer = if f.can_read then consume b else b;
          notices = f'.notices ++ read_notices f.can_read (to_string_view b);
        })
