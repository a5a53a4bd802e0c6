-- ===== src/Io/Connection/Incoming.antt =====
-- hulatang/io/TCPConnection.cpp with reactor/UnixReactor.cpp: the bytes that a connection receives, from the kernel
-- through its receive buffer to its user.
use hulatang_io.Base.{ℕ, suc, List, [], ◌∷◌, ◌++◌, min, Text, take, drop, Outcome, ok, ◌>>=◌}
use hulatang_io.Buffer.{Buffer, readable_bytes, retrieve_as_string}
use hulatang_io.Io.Reactor.{ReadResult, read_bytes, read_failed, eagain, capacity, handle_read}

-- The receive buffer, what the kernel has for it, and what the user has taken out of it, in order.
pub record Incoming : Type 0 where
  pub recv_buffer : Buffer
  pub pending : Text
  pub used : Text

-- Bytes arrive in the kernel, the socket is readable, where one `readv` gives no more than `k` bytes behind the first,
-- or the user takes up to `n` bytes out of the buffer.
pub data Step : Type 0 where
  arrives : Text → Step
  readable : ℕ → Step
  uses : ℕ → Step

-- What `readv` answers.
abbrev pub answer_of : Text → ReadResult
answer_of [] = read_failed eagain
answer_of (x ∷ xs) = read_bytes (x ∷ xs)

abbrev pub read_count : ℕ → Incoming → ℕ
read_count k s = min (suc k) (capacity s.recv_buffer)

module _ (junk : ℕ → ℕ) where
  unfoldable pub step : Step → Incoming → Outcome Incoming
  step (arrives data') s = ok (record s { pending = s.pending ++ data' })
  step (readable k) s = do
    let n = read_count k s
    r ← handle_read junk (answer_of (take n s.pending)) [] s.recv_buffer
    ok (record s { recv_buffer = r.1; pending = drop n s.pending })
  step (uses n) s = do
    r ← retrieve_as_string (min n (readable_bytes s.recv_buffer)) s.recv_buffer
    ok (record s { recv_buffer = r.1; used = s.used ++ r.0 })

  unfoldable pub run : List Step → Incoming → Outcome Incoming
  run [] s = ok s
  run (t ∷ ts) s = do s' ← step t s; run ts s'

-- What arrives in these steps.
abbrev pub arrived : List Step → Text
arrived [] = []
arrived (arrives data' ∷ ts) = data' ++ arrived ts
arrived (readable k ∷ ts) = arrived ts
arrived (uses n ∷ ts) = arrived ts
