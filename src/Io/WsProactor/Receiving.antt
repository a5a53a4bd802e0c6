-- ===== src/Io/WsProactor/Receiving.antt =====
-- `WSProactor::handleRead` and `postRecv`: what comes into the receive buffer, and the area that is given to
-- the next operation.
use hulatang_io.Base.{
  ℕ, ◌+◌, ◌≤◌, ◌<◌, ◌≡◌, refl, ap, ap₂, take-all, Bool-cases, inl, inr, ◌∙◌, List, [], ◌∷◌, ◌++◌,
  append-nil, arith, length, lt→ltb, ne→==, ◌==◌, true, false, Bool, not, if◌then◌else◌, Text, ok,
  Succeeds,
}
use hulatang_io.Buffer.{Buffer, max_size, writable_bytes, has_written}
use hulatang_io.Buffer.Valid.{IsValid, contents}
use hulatang_io.Buffer.Space.{written, ensure_writable_bytes-HasRoom, length-written}
use hulatang_io.Buffer.Queue.{Holds, append_within}
use hulatang_io.Io.Proactor.{read_type}
use hulatang_io.Io.Reactor.Read.{store-has_written}
use hulatang_io.Io.WsProactor.{
  Stream, WsProactor, Notice, message_called, Posted, Recv, received, recv_error, fails, ulong,
  add_stream, notify, post_recv, next_recv, read_more, handle_read, wsa_would_block,
}

-- An operation that reads is in the list, behind those that were there, and its area lies in the storage of
-- the receive buffer, right behind what can be read, with 1024 bytes or more.
pub record Reads (base : ℕ) (over : List Stream) (p' : WsProactor) : Type 0 where
  pub op : Stream
  pub last : p'.over ≡ over ++ op ∷ []
  pub read : op.type ≡ read_type
  pub from : op.data_at ≡ base + p'.read_buf.writer_index
  pub area : op.len ≡ ulong (writable_bytes p'.read_buf)
  pub wide : 1024 ≤ writable_bytes p'.read_buf
  pub inside : op.data_at + op.len ≤ base + length p'.read_buf.bytes

-- The bytes are appended to the receive buffer, and the next operation is posted.
pub record HasRead (base : ℕ) (xs : Text) (over : List Stream) (notices : List Notice)
    (p' : WsProactor) : Type 0 where
  pub appended : Holds xs p'.read_buf
  pub told : p'.notices ≡ notices ++ message_called ∷ []
  pub posted : Reads base over p'

-- What the further read gives, and whether it fails: that there is nothing to read is no failure.
abbrev pub text_of : Recv → Text
text_of (received xs) = xs
text_of (recv_error err) = []

abbrev pub refused : Recv → Bool
refused (received xs) = false
refused (recv_error err) = not (err == wsa_would_block)

not-false : {b : Bool} → not b ≡ false → b ≡ true
not-false {b = true} e = refl
not-false {b = false} e = absurd cc

module _ (junk : ℕ → ℕ) where
  next_recv_lem :
      (base : ℕ) (answer : Posted) (op : Stream) (p : WsProactor) (xs : Text)
      → Holds xs p.read_buf
      → p.read_buf.writer_index + 1024 ≤ max_size
      → fails answer ≡ false
      → Succeeds (next_recv junk base answer op p) (HasRead base xs p.over p.notices)
  unfolding next_recv post_recv
  next_recv_lem base answer op p xs h fits accepted =
      let r = ensure_writable_bytes-HasRoom junk 1024 h.valid fits in
      let filled : Stream = record op {
        type = read_type;
        data_at = base + r.0.writer_index;
        len = ulong (writable_bytes r.0);
        transferred = 0;
      } in
      let p' : WsProactor = record (notify message_called p) { read_buf = r.0 } in
      (
        add_stream filled p',
        rw (r.1, accepted) refl,
        record {
          appended = record { valid = r.2.valid; same = r.2.kept ∙ h.same };
          told = refl;
          posted = record {
            op = filled;
            last = refl;
            read = refl;
            from = refl;
            area = refl;
            wide = omega (arith, r.2.valid, r.2.room);
            inside = omega (arith, r.2.valid, r.2.room);
          };
        },
      )

  read_more_lem :
      (base : ℕ) (more : Recv) (answer : Posted) (op : Stream) (p : WsProactor) (xs : Text)
      → Holds xs p.read_buf
      → p.read_buf.writer_index + length (text_of more) + 1024 ≤ max_size
      → refused more ≡ false
      → fails answer ≡ false
      → Succeeds
          (read_more junk base more answer op p)
          (HasRead base (xs ++ text_of more) p.over p.notices)
  unfolding read_more
  read_more_lem base (received []) answer op p xs h fits fine accepted =
      rw (append-nil xs) (next_recv_lem base answer op p xs h (omega arith) accepted)
  read_more_lem base (received (y ∷ ys)) answer op p xs h fits fine accepted =
      let n = length (y ∷ ys) in
      let r = append_within junk (y ∷ ys) n h.valid (omega arith) (omega arith) in
      let more = r.2.0.same ∙ ap₂ (λ a b. a ++ b) h.same (take-all n (y ∷ ys) (omega arith)) in
      let next =
        next_recv_lem base answer op (record p { read_buf = r.0 }) (xs ++ y ∷ ys)
          (record { valid = r.2.0.valid; same = more }) (omega (arith, r.2.1)) accepted in
      (next.0, rw (lt→ltb 0 n (omega arith), r.1) next.1, next.2)
  read_more_lem base (recv_error err) answer op p xs h fits fine accepted =
      let r = ensure_writable_bytes-HasRoom junk 1024 h.valid (omega arith) in
      let next =
        next_recv_lem base answer op (record p { read_buf = r.0 }) xs
          (record { valid = r.2.valid; same = r.2.kept ∙ h.same }) (omega (arith, r.2.no_higher))
          accepted in
      let test : (err == wsa_would_block) ≡ true = not-false fine in
      rw (append-nil xs) (next.0, rw (test, r.1) next.1, next.2)

  -- An operation has put the bytes `ys` behind what can be read in a valid receive buffer, one byte at least,
  -- and neither the further read nor the next operation fails. Then `handleRead` appends `ys`, and behind them,
  -- where the operation has filled the buffer, what the further read gives; it calls the message callback once,
  -- and posts a read whose area lies in the storage of the buffer right behind these bytes.
  pub handle_read-appends :
      (base : ℕ) (more : Recv) (answer : Posted) (op : Stream) (p : WsProactor) (b : Buffer)
      (ys : Text)
      → IsValid b
      → b.writer_index + length ys ≤ length b.bytes
      → p.read_buf ≡ record b { bytes = written b.writer_index ys b.bytes }
      → op.transferred ≡ length ys
      → 0 < length ys
      → b.writer_index + length ys + length (text_of more) + 1024 ≤ max_size
      → refused more ≡ false
      → fails answer ≡ false
      → Succeeds (handle_read junk base more answer op p) (
          HasRead base
            (contents b ++ ys ++ (if length ys == writable_bytes b then text_of more else []))
            p.over
            p.notices)
  unfolding handle_read
  handle_read-appends base more answer op p b ys v inside at e some_bytes fits fine accepted =
      let wrote = store-has_written op.transferred ys v e (omega arith) in
      let call : has_written op.transferred p.read_buf ≡ ok wrote.0 = rw at wrote.1 in
      let p' : WsProactor = record p { read_buf = wrote.0 } in
      let busy : (op.transferred == 0) ≡ false = ne→== _ _ (λ q. omega arith) in
      let width : writable_bytes p.read_buf ≡ writable_bytes b = omega (
        arith,
        ap (λ (x : Buffer). length x.bytes) at,
        ap (λ (x : Buffer). x.writer_index) at,
        length-written b.writer_index ys b.bytes inside,
      ) in
      elim (Bool-cases (length ys == writable_bytes b)) [
        | inl filled ↦
            let test : (op.transferred == writable_bytes p.read_buf) ≡ true =
              rw (e, width) filled in
            let next =
              read_more_lem base more answer op p' (contents b ++ ys) wrote.2.0
                (omega (arith, wrote.2.1)) fine accepted in
            (next.0, rw (call, busy, test) next.1, rw filled next.2)
        | inr part ↦
            let test : (op.transferred == writable_bytes p.read_buf) ≡ false = rw (e, width) part in
            let next =
              next_recv_lem base answer op p' (contents b ++ ys) wrote.2.0
                (omega (arith, wrote.2.1)) accepted in
            (next.0, rw (call, busy, test) next.1, rw (part, append-nil (contents b ++ ys)) next.2)
      ]
