-- ===== src/Io/Connection/Arrival.antt =====
-- What a connection receives reaches its user in order.
use hulatang_io.Base.{
  ℕ, suc, ◌+◌, ◌-◌, ◌≤◌, ◌≡◌, refl, sym, ap, ◌∙◌, List, [], ◌∷◌, ◌++◌, append_assoc, append-nil,
  arith, min, Text, length, length-append, length-drop, take, drop, take-all, drop-all,
  take-append-drop, Succeeds,
}
use hulatang_io.Buffer.{max_size, readable_bytes}
use hulatang_io.Buffer.Valid.{IsValid, contents}
use hulatang_io.Buffer.Queue.{retrieve_as_string_lem, retrieve_as_string-bound}
use hulatang_io.Io.Reactor.{read_bytes, capacity, handle_read, read_error}
use hulatang_io.Io.Reactor.Read.{Appended, handle_read_lem}
use hulatang_io.Io.Connection.Incoming.{
  Incoming, Step, arrives, readable, uses, read_count, step, run, arrived,
}

-- What the user has, what waits in the buffer, and what the kernel has.
abbrev pub stream : Incoming → Text
stream s = s.used ++ contents s.recv_buffer ++ s.pending

-- There is room for what the kernel has and for `rest` more bytes.
pub record CanReceive (rest : ℕ) (s : Incoming) : Type 0 where
  pub valid : IsValid s.recv_buffer
  pub large : 8 + length s.pending + rest ≤ max_size
  pub room : s.recv_buffer.writer_index + length s.pending + rest ≤ max_size

-- A step from one state to another that adds these bytes to the stream.
abbrev Keeps : Text → ℕ → Incoming → Incoming → Type 0
Keeps data' rest s s' = (stream s' ≡ stream s ++ data') × CanReceive rest s'

capacity_positive : (k : ℕ) (s : Incoming) → read_count k s ≡ suc (read_count k s - 1)
capacity_positive k s = ground arith

read_count_small : (k : ℕ) (s : Incoming) → read_count k s ≤ capacity s.recv_buffer
read_count_small k s = ground arith

length-take_le :
    (n : ℕ) (xs : Text)
    → length (take n xs) ≤ n × (length (take n xs) + length (drop n xs) ≡ length xs)
length-take_le n xs =
    let whole = sym (length-append (take n xs) (drop n xs)) ∙ ap length (take-append-drop n xs) in
    (omega (arith, whole, length-drop n xs), whole)

counted :
    (xs ys : Text) (s : Incoming)
    → CanReceive (length (xs ++ ys)) s
    → CanReceive (length xs + length ys) s
counted xs ys s c =
    let long = length-append xs ys in
    record {
      valid = c.valid;
      large = omega (arith, long, c.large);
      room = omega (arith, long, c.room);
    }

module _ (junk : ℕ → ℕ) where
  arrives-stream :
      (data' : Text) (rest : ℕ) (s : Incoming)
      → CanReceive (length data' + rest) s
      → Succeeds (step junk (arrives data') s) (Keeps data' rest s)
  unfolding step
  arrives-stream data' rest s c =
      let long = length-append s.pending data' in
      (
        record s { pending = s.pending ++ data' },
        refl,
        (
          sym (append_assoc (s.used ++ contents s.recv_buffer) s.pending data'),
          record {
            valid = c.valid;
            large = omega (arith, long, c.large);
            room = omega (arith, long, c.room);
          },
        ),
      )

  -- The read that `handle_read_lem` speaks of, as a step.
  read_one-stream :
      (k m rest x : ℕ) (xs : Text) (s : Incoming)
      → read_count k s ≡ suc m
      → s.pending ≡ x ∷ xs
      → CanReceive rest s
      → Succeeds
          (handle_read junk (read_bytes (x ∷ take m xs)) [] s.recv_buffer)
          (Appended (x ∷ take m xs) s.recv_buffer)
      → Succeeds (step junk (readable k) s) (Keeps [] rest s)
  unfolding step take drop
  read_one-stream k m rest x xs s n e c (r, done', (told, holds, bounded)) =
      let part = length-take_le m xs in
      let long = ap length e in
      let moved : s.used ++ contents r.1 ++ drop m xs ≡ stream s ++ [] =
        simp (holds.same, e, append-nil, append_assoc, take-append-drop) in
      (
        record s { recv_buffer = r.1; pending = drop m xs },
        rw (n, e, done') refl,
        (
          moved,
          record {
            valid = holds.valid;
            large = omega (arith, part, long, c.large);
            room = omega (arith, part, long, c.room, bounded);
          },
        ),
      )

  readable-stream :
      (k rest : ℕ) (s : Incoming) (p : Text)
      → s.pending ≡ p
      → CanReceive rest s
      → Succeeds (step junk (readable k) s) (Keeps [] rest s)
  unfolding step
  readable-stream k rest s [] e c =
      let n : ℕ = read_count k s in
      let taken : take n s.pending ≡ [] = ap (λ t. take n t) e ∙ take-all n [] (omega arith) in
      let left : drop n s.pending ≡ [] = ap (λ t. drop n t) e ∙ drop-all n [] (omega arith) in
      (
        record s { pending = drop n s.pending },
        rw taken (unfold handle_read read_error in refl),
        (
          ap (λ t. s.used ++ contents s.recv_buffer ++ t) (left ∙ sym e)
              ∙ sym (append-nil (stream s)),
          record {
            valid = c.valid;
            large = omega (arith, ap length left, c.large);
            room = omega (arith, ap length left, c.room);
          },
        ),
      )
  readable-stream k rest s (x ∷ xs) e c =
      let m : ℕ = read_count k s - 1 in
      let n = capacity_positive k s in
      let part = length-take_le m xs in
      let long = ap length e in
      read_one-stream k m rest x xs s n e c
        (handle_read_lem junk x (take m xs) [] c.valid
          (omega (arith, part, n, read_count_small k s)) (omega (arith, part, long, c.room))).0

  uses-stream :
      (n rest : ℕ) (s : Incoming)
      → CanReceive rest s
      → Succeeds (step junk (uses n) s) (Keeps [] rest s)
  unfolding step
  uses-stream n rest s c =
      let num : ℕ = min n (readable_bytes s.recv_buffer) in
      let r = retrieve_as_string_lem num c.valid (omega (arith, c.valid)) in
      (
        record s { recv_buffer = r.0.1; used = s.used ++ r.0.0 },
        rw r.1 refl,
        (
          simp (r.2.0, r.2.1.same, append-nil, append_assoc)
              (ap (λ t. s.used ++ t)
                (sym (
                    append_assoc (take num (contents s.recv_buffer))
                      (drop num (contents s.recv_buffer)) s.pending)
                  ∙ ap (λ t. t ++ s.pending) (take-append-drop num (contents s.recv_buffer)))),
          record {
            valid = r.2.1.valid;
            large = c.large;
            room = omega (
              arith,
              c.large,
              retrieve_as_string-bound num (max_size - (length s.pending + rest)) s.recv_buffer r.0
                  r.1 (omega (arith, c.large)) (omega (arith, c.room)),
            );
          },
        ),
      )

  -- On a valid receive buffer, with room for what the kernel has and for all that arrives: any sequence of arrivals, of
  -- reads of some bytes and of the user's taking bytes out comes to its end, and what the user has, what waits in the
  -- buffer and what the kernel has are, one after the other, what they were before followed by the bytes that arrived,
  -- each once and in order.
  pub run_incoming-stream :
      (ts : List Step) (s : Incoming)
      → CanReceive (length (arrived ts)) s
      → Succeeds (run junk ts s) λ s'. stream s' ≡ stream s ++ arrived ts
  unfolding run
  run_incoming-stream [] s c = (s, refl, sym (append-nil (stream s)))
  run_incoming-stream (arrives data' ∷ ts) s c =
      let r = arrives-stream data' (length (arrived ts)) s (counted data' (arrived ts) s c) in
      let rest = run_incoming-stream ts r.0 r.2.1 in
      (
        rest.0,
        rw r.1 rest.1,
        rest.2 ∙ ap (λ t. t ++ arrived ts) r.2.0 ∙ append_assoc (stream s) data' (arrived ts),
      )
  run_incoming-stream (readable k ∷ ts) s c =
      let r = readable-stream k (length (arrived ts)) s s.pending refl c in
      let rest = run_incoming-stream ts r.0 r.2.1 in
      (rest.0, rw r.1 rest.1, rest.2 ∙ ap (λ t. t ++ arrived ts) (r.2.0 ∙ append-nil (stream s)))
  run_incoming-stream (uses n ∷ ts) s c =
      let r = uses-stream n (length (arrived ts)) s c in
      let rest = run_incoming-stream ts r.0 r.2.1 in
      (rest.0, rw r.1 rest.1, rest.2 ∙ ap (λ t. t ++ arrived ts) (r.2.0 ∙ append-nil (stream s)))
