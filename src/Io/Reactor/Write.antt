-- ===== src/Io/Reactor/Write.antt =====
-- `UnixReactor::handleWrite`, and what `Reactor::handleEvent` calls.
use hulatang_io.Base.{
  ℕ, ◌≤◌, ◌≡◌, ◌≢◌, refl, [], ◌∷◌, drop, arith, Bool, true, false, ok, aborted, Succeeds,
  if◌then◌else◌, ◌⊎◌,
}
use hulatang_io.Buffer.{Buffer}
use hulatang_io.Buffer.Valid.{IsValid, contents, size}
use hulatang_io.Buffer.Queue.{Holds, retrieve_lem}
use hulatang_io.Io.Reactor.{
  close_called, read_called, write_called, socket_error_read, written_called, wrote, write_failed,
  Errno, eagain, econnreset, epipe, other, handle_write, minus_one, Events, handle_event,
}

handle_write_sent :
    (n : ℕ) (callback : Bool) {b : Buffer}
    → IsValid b
    → n ≤ size b
    → Succeeds (handle_write (wrote n) callback b) λ r.
      (r.0 ≡ (if callback then written_called n ∷ [] else [])) × Holds (drop n (contents b)) r.1
unfolding handle_write
handle_write_sent n callback {b} v h =
    let r = (retrieve_lem n v).0 h in
    ((if callback then written_called n ∷ [] else [], r.0), rw r.1, (refl, r.2))

handle_write_error :
    (e : Errno) (callback : Bool) {b : Buffer}
    → IsValid b
    → e ≢ eagain
    → handle_write (write_failed e) callback b ≡ aborted
unfolding handle_write
handle_write_error eagain callback v ne = absurd (ne refl)
handle_write_error econnreset callback v ne = rw ((retrieve_lem minus_one v).1 (omega arith))
handle_write_error epipe callback v ne = rw ((retrieve_lem minus_one v).1 (omega arith))
handle_write_error (other n) callback v ne = rw ((retrieve_lem minus_one v).1 (omega arith))

-- A write that takes `n` of the waiting bytes drops exactly these from the buffer and tells the
-- write callback, where one is set. A write that fails with EAGAIN changes nothing. With any other
-- error the handler goes on to retrieve -1 bytes, and the assertion there fails.
pub handle_write_lem :
    (n : ℕ) (e : Errno) (callback : Bool) {b : Buffer}
    → IsValid b
    → n ≤ size b
    → e ≢ eagain
    → Succeeds (handle_write (wrote n) callback b) (λ r.
      (r.0 ≡ (if callback then written_called n ∷ [] else [])) × Holds (drop n (contents b)) r.1)
      × (handle_write (write_failed eagain) callback b ≡ ok ([], b))
      × (handle_write (write_failed e) callback b ≡ aborted)
unfolding handle_write
handle_write_lem n e callback v h ne =
    (handle_write_sent n callback v h, refl, handle_write_error e callback v ne)

-- A channel is closed, read for its error, or read, never two of these: it is closed exactly for a
-- hang-up with nothing to read, its error is asked for exactly at POLLERR or POLLNVAL where it is
-- not closed, and it is read exactly where neither holds and there is something to read. It is
-- written exactly where it can be, after that, even if it was closed just before.
pub handle_event_lem :
    (e : Events)
    → (e.pollhup ≡ true
        → e.pollin ≡ false
        → handle_event e ≡ close_called ∷ (if e.pollout then write_called ∷ [] else []))
      × ((e.pollhup ≡ false) ⊎ (e.pollin ≡ true)
          → (e.pollerr ≡ true) ⊎ (e.pollnval ≡ true)
          → handle_event e ≡ socket_error_read ∷ (if e.pollout then write_called ∷ [] else []))
      × ((e.pollhup ≡ false) ⊎ (e.pollin ≡ true)
          → e.pollerr ≡ false
          → e.pollnval ≡ false
          → (e.pollin ≡ true) ⊎ (e.pollpri ≡ true) ⊎ (e.pollrdhup ≡ true)
          → handle_event e ≡ read_called ∷ (if e.pollout then write_called ∷ [] else []))
unfolding handle_event
handle_event_lem e = ground arith
