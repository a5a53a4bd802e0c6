-- ===== src/Io/Reactor/Read.antt =====
-- `UnixReactor::handleRead`.
use hulatang_io.Base.{
  ℕ, ◌+◌, ◌≤◌, ◌<◌, ◌≡◌, ◌≢◌, refl, sym, ap, ap₂, ◌∙◌, List, [], ◌∷◌, ◌++◌, append_assoc, arith,
  length, take, drop, length-take, length-drop, take-all, take-append-drop, leb, le→leb, gt→leb,
  true, dec_le, Text, ok, Succeeds, >>=-ne-ok, >>=-ne-ok_left,
}
use hulatang_io.Buffer.{
  Buffer, max_size, add64, sub64, writable_bytes, has_written, append, ensure_writable_bytes,
}
use hulatang_io.Buffer.Split.{slice-store}
use hulatang_io.Buffer.Valid.{IsValid, contents}
use hulatang_io.Buffer.Space.{written, store_lem, length-written}
use hulatang_io.Buffer.Queue.{Holds, append_within}
use hulatang_io.Io.Reactor.{
  Action, message_called, close_called, read_bytes, read_failed, Errno, eagain, capacity, take_in,
  read_error, handle_read, extra_size, minus_one,
}

-- Bytes stored behind the write index and then declared written are appended.
pub store-has_written :
    (n : ℕ) (ys : Text) {b : Buffer}
    → IsValid b
    → n ≡ length ys
    → b.writer_index + n ≤ length b.bytes
    → Succeeds
        (has_written n (record b { bytes = written b.writer_index ys b.bytes }))
        λ b'. Holds (contents b ++ ys) b' × (b'.writer_index ≡ b.writer_index + n)
unfolding has_written
store-has_written n ys {b} v e fits =
    let long = length-written b.writer_index ys b.bytes (omega arith) in
    let test : leb n (sub64 (length (written b.writer_index ys b.bytes)) b.writer_index) ≡ true =
      le→leb _ _ (omega (arith, long)) in
    (
      record b { bytes = written b.writer_index ys b.bytes; writer_index = add64 b.writer_index n },
      rw test,
      (
        record {
          valid = omega (arith, long);
          same =
              slice-store b.reader_index b.writer_index (add64 b.writer_index n) b.bytes ys _
                v.ordered v.within (omega arith);
        },
        omega arith,
      ),
    )

-- The message callback is called, and these bytes are appended, by which the write index grows by their number at
-- most.
abbrev pub Appended : Text → Buffer → List Action × Buffer → Type 0
Appended xs b r =
    (r.0 ≡ message_called ∷ [])
    × Holds (contents b ++ xs) r.1
    × (r.1.writer_index ≤ b.writer_index + length xs)

module _ (junk : ℕ → ℕ) where
  read_inside :
      (x : ℕ) (xs extra : Text) {b : Buffer}
      → IsValid b
      → length (x ∷ xs) ≤ capacity b
      → length (x ∷ xs) ≤ writable_bytes b
      → Succeeds (handle_read junk (read_bytes (x ∷ xs)) extra b) (Appended (x ∷ xs) b)
  unfolding handle_read take_in
  read_inside x xs extra {b} v room h =
      let n = length (x ∷ xs) in
      let w = writable_bytes b in
      let all = take-all w (x ∷ xs) h in
      let put = store_lem b.writer_index (x ∷ xs) b.bytes (omega arith) in
      let r = store-has_written n (x ∷ xs) v refl (omega arith) in
      (
        (message_called ∷ [], r.0),
        rw (le→leb _ _ room, all, put, le→leb n w h, r.1),
        (refl, r.2.0, omega (arith, r.2.1)),
      )

  read_outside :
      (x : ℕ) (xs extra : Text) {b : Buffer}
      → IsValid b
      → length (x ∷ xs) ≤ capacity b
      → writable_bytes b < length (x ∷ xs)
      → b.writer_index + length (x ∷ xs) ≤ max_size
      → Succeeds (handle_read junk (read_bytes (x ∷ xs)) extra b) (Appended (x ∷ xs) b)
  unfolding handle_read take_in
  read_outside x xs extra {b} v room h fits =
      let n = length (x ∷ xs) in
      let w = writable_bytes b in
      let front = take w (x ∷ xs) in
      let back = drop w (x ∷ xs) in
      let sized = length-take w (x ∷ xs) (omega arith) in
      let rest = length-drop w (x ∷ xs) in
      let put = store_lem b.writer_index front b.bytes (omega (arith, sized)) in
      let r = store-has_written w front v (sym sized) (omega arith) in
      let a =
        append_within junk back (sub64 n w) r.2.0.valid (omega (arith, rest))
          (omega (arith, r.2.1)) in
      (
        (message_called ∷ [], a.0),
        rw (le→leb _ _ room, put, gt→leb n w h, r.1, a.1),
        (
          refl,
          record {
            valid = a.2.0.valid;
            same =
                a.2.0.same
                ∙ ap₂ ◌++◌ r.2.0.same (take-all (sub64 n w) back (omega (arith, rest)))
                ∙ append_assoc (contents b) front back
                ∙ ap (λ t. contents b ++ t) (take-append-drop w (x ∷ xs));
          },
          omega (arith, a.2.1, r.2.1, rest),
        ),
      )

  -- A read of some bytes, as many as one call can place, appends all of them in order to the
  -- buffer, keeps its invariant and calls the message callback, whether or not they fit in the
  -- writable part, and the write index grows by their number at most. A read of none closes the channel and leaves the buffer.
  pub handle_read_lem :
      (x : ℕ) (xs extra : Text) {b : Buffer}
      → IsValid b
      → length (x ∷ xs) ≤ capacity b
      → b.writer_index + length (x ∷ xs) ≤ max_size
      → Succeeds (handle_read junk (read_bytes (x ∷ xs)) extra b) (Appended (x ∷ xs) b)
        × (handle_read junk (read_bytes []) extra b ≡ ok (close_called ∷ [], b))
  unfolding handle_read
  handle_read_lem x xs extra {b} v room fits = (some_read, refl)
    where
      some_read : Succeeds (handle_read junk (read_bytes (x ∷ xs)) extra b) (Appended (x ∷ xs) b)
      some_read = elim (dec_le (length (x ∷ xs)) (writable_bytes b)) [
        | yes h ↦ read_inside x xs extra v room h
        | no h ↦ read_outside x xs extra v room (omega arith) fits
      ]

  append_short : (xs : Text) (n : ℕ) (b r : Buffer) → length xs < n → append junk xs n b ≢ ok r
  unfolding append
  append_short xs n b r h =
      >>=-ne-ok (ensure_writable_bytes junk n b) _ (λ b' r. rw (gt→leb n (length xs) h) (λ e. cc)) r

  take_in_failed :
      (extra : Text) (b r : Buffer)
      → IsValid b
      → length extra ≡ extra_size
      → take_in junk minus_one (writable_bytes b) extra b ≢ ok r
  unfolding take_in
  take_in_failed extra b r v size = rw (gt→leb minus_one (writable_bytes b) (omega arith)) (
      >>=-ne-ok (has_written (writable_bytes b) b) _
        (λ b' r. append_short extra (sub64 minus_one (writable_bytes b)) b' r (omega arith)) r)

  -- With a valid buffer, and the 65536 bytes of `extrabuf`, a read that fails with any error but
  -- EAGAIN never comes to an end with a value, whatever the buffer and `extrabuf` hold.
  pub handle_read_failed :
      (e : Errno) (extra : Text) {b : Buffer} (r : List Action × Buffer)
      → IsValid b
      → e ≢ eagain
      → length extra ≡ extra_size
      → handle_read junk (read_failed e) extra b ≢ ok r
  unfolding handle_read read_error
  handle_read_failed eagain extra {b} r v ne size = absurd (ne refl)
  handle_read_failed e extra {b} r v ne size =
      >>=-ne-ok_left (take_in junk minus_one (writable_bytes b) extra b) _
        (λ b'. take_in_failed extra b b' v size) r
