-- ===== src/Io/Reactor/Examples.antt =====
-- Answers of the kernel to a small buffer.
use hulatang_io.Base.{ℕ, ◌≡◌, [], ◌∷◌, drop, true, false, ok, aborted, Succeeds, arith}
use hulatang_io.Buffer.{Buffer}
use hulatang_io.Buffer.Valid.{contents}
use hulatang_io.Buffer.Queue.{Holds}
use hulatang_io.Io.Reactor.{
  close_called, written_called, eagain, econnreset, read_bytes, wrote, write_failed, handle_read,
  handle_write, Events,
}
use hulatang_io.Io.Reactor.Read.{Appended, handle_read_lem}
use hulatang_io.Io.Reactor.Write.{handle_write_lem}

abbrev junk : ℕ → ℕ
junk i = 170

-- two readable bytes, and room for two
abbrev small : Buffer
small = record {
  bytes = 0 ∷ 0 ∷ 0 ∷ 0 ∷ 0 ∷ 0 ∷ 0 ∷ 0 ∷ 5 ∷ 6 ∷ 0 ∷ 0 ∷ [];
  reader_index = 8;
  writer_index = 10;
}

handle_read_lem_example :
    Succeeds
      (handle_read junk (read_bytes (7 ∷ 8 ∷ 9 ∷ [])) [] small)
      (Appended (7 ∷ 8 ∷ 9 ∷ []) small)
    × (handle_read junk (read_bytes []) [] small ≡ ok (close_called ∷ [], small))
handle_read_lem_example =
    handle_read_lem junk 7 (8 ∷ 9 ∷ []) [] (omega arith) (omega arith) (omega arith)

handle_write_lem_example :
    Succeeds
      (handle_write (wrote 1) true small)
      (λ r. (r.0 ≡ written_called 1 ∷ []) × Holds (drop 1 (contents small)) r.1)
    × (handle_write (write_failed eagain) true small ≡ ok ([], small))
    × (handle_write (write_failed econnreset) true small ≡ aborted)
handle_write_lem_example = handle_write_lem 1 econnreset true (omega arith) (omega arith) (λ e. cc)

-- hung up with nothing to read, and writable
abbrev hung_up : Events
hung_up = record {
  pollin = false;
  pollpri = false;
  pollrdhup = true;
  pollout = true;
  pollerr = false;
  pollnval = false;
  pollhup = true;
}
