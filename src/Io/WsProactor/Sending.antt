-- ===== src/Io/WsProactor/Sending.antt =====
-- `WSProactor::handleWrite` and `updatePost`: what is sent of the send buffer.
use hulatang_io.Base.{ℕ, ◌+◌, ◌≡◌, [], ◌∷◌, ◌++◌}
use hulatang_io.Buffer.{Buffer, readable_bytes}
use hulatang_io.Io.Proactor.{write_type}
use hulatang_io.Io.WsProactor.{Stream, WsProactor, ulong}

-- A write of the whole send buffer is in the list, behind the operations that were there.
pub record Sends (base : ℕ) (p p' : WsProactor) : Type 0 where
  pub op : Stream
  pub last : p'.over ≡ p.over ++ op ∷ []
  pub write : op.type ≡ write_type
  pub from : op.data_at ≡ base + p'.write_buf.reader_index
  pub all : op.len ≡ ulong (readable_bytes p'.write_buf)
