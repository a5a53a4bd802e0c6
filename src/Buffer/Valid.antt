-- ===== src/Buffer/Valid.antt =====
-- The representation invariant of the buffer, and the operations that only move an index.
use hulatang_io.Base.{ℕ, ◌-◌, ◌≤◌, List, length}
use hulatang_io.Buffer.{Buffer, max_size, to_string_view}

pub record IsValid (b : Buffer) : Type 0 where
  pub prepend_room : 8 ≤ length b.bytes
  pub ordered : b.reader_index ≤ b.writer_index
  pub within : b.writer_index ≤ length b.bytes
  pub small : length b.bytes ≤ max_size

-- the queue of bytes that a client reads
abbrev pub contents : Buffer → List ℕ
contents b = to_string_view b

abbrev pub size : Buffer → ℕ
size b = b.writer_index - b.reader_index
