-- ===== src/Io/WsProactor/Examples.antt =====
-- Overlapped operations on small buffers.
use hulatang_io.Base.{
  ℕ, ◌+◌, ◌≡◌, refl, [], ◌∷◌, Text, codes, arith, length, take, drop, true, false, Succeeds,
}
use hulatang_io.Buffer.{Buffer}
use hulatang_io.Buffer.Space.{written}
use hulatang_io.Io.Proactor.{read_type, write_type}
use hulatang_io.Io.WsProactor.{
  Stream, WsProactor, close_called, returned, received, ws_error, handle_read,
}
use hulatang_io.Io.WsProactor.Receiving.{HasRead, handle_read-appends}

abbrev junk : ℕ → ℕ
junk i = 170

-- a buffer that holds these bytes, and no more storage
abbrev stored : Text → Buffer
stored xs = record {
  bytes = 0 ∷ 0 ∷ 0 ∷ 0 ∷ 0 ∷ 0 ∷ 0 ∷ 0 ∷ xs;
  reader_index = 8;
  writer_index = 8 + length xs;
}

-- a buffer with two free bytes
abbrev two_free : Buffer
two_free = record (stored (codes "??")) { writer_index = 8 }

abbrev pending_write : Stream
pending_write = record { address = 1; type = write_type; data_at = 1008; len = 2; transferred = 0 }

abbrev done_read : Stream
done_read = record { address = 2; type = read_type; data_at = 1008; len = 2; transferred = 2 }

abbrev sending : WsProactor
sending = record {
  read_buf = two_free;
  write_buf = stored (codes "abc");
  over = pending_write ∷ [];
  writing = true;
  tells_written = false;
  notices = [];
}

-- A reset is no error of the channel.
ws_error_reset : (ws_error 10054 sending).notices ≡ close_called ∷ []
unfolding ws_error
ws_error_reset = refl

abbrev receiving : WsProactor
receiving = record sending {
  read_buf = record two_free { bytes = written 8 (codes "hi") two_free.bytes };
}

handle_read-appends_example :
    Succeeds
      (handle_read junk 1000 (received (codes "!")) returned done_read receiving)
      (HasRead 1000 (codes "hi!") (pending_write ∷ []) [])
unfolding take drop
handle_read-appends_example =
    handle_read-appends junk 1000 (received (codes "!")) returned done_read receiving two_free
      (codes "hi") (omega arith) (omega arith) refl refl (omega arith) (omega arith) refl refl
