-- ===== src/File/Local/ReadAll.antt =====
-- `LocalFile::read()`: the file is read in pieces until a read gives nothing.
use hulatang_io.Base.{
  if◌then◌else◌, ℕ, ◌+◌, ◌%◌, ◌^◌, ◌≤◌, ◌<◌, ◌≡◌, refl, ap, ap₂, ◌∙◌, List, [], ◌∷◌, ◌++◌,
  append-nil, append_assoc, true, false, not, ◌&&◌, ◌==◌, eq→==, ne→==, none, Text, length,
  length-append, Outcome, ok, ◌>>=◌, Succeeds, arith,
}
use hulatang_io.Buffer.{Buffer, max_size, to_string_view}
use hulatang_io.Buffer.Valid.{contents}
use hulatang_io.Buffer.Space.{written, ensure_writable_bytes-HasRoom}
use hulatang_io.Buffer.Queue.{Holds}
use hulatang_io.Buffer.Stream.{concat}
use hulatang_io.Io.Reactor.Read.{store-has_written}
use hulatang_io.File.Local.{
  LocalFile, read_notices, update_position, in_loop_read, in_loop_read_all, on_read,
}

-- A read of 4096 bytes is pending, on a file that is read to its end, with `xs` in the buffer.
record Awaits (xs : Text) (f : LocalFile) : Type 0 where
  holds : Holds xs f.read_buffer
  room : f.read_buffer.writer_index + 4096 ≤ length f.read_buffer.bytes
  all : f.reading_all ≡ true

-- Each piece is a byte at least, and 4096 bytes at most.
pub data Pieces : List Text → Type 0 where
  no_more : Pieces []
  piece :
      {ys : Text} {ps : List Text} → 0 < length ys → length ys ≤ 4096 → Pieces ps → Pieces (ys ∷ ps)

module _ (junk : ℕ → ℕ) (consume : Buffer → Buffer) where
  -- A pending read completes: its bytes stand in the buffer, and `onRead` is called.
  unfoldable pub complete : Text → LocalFile → Outcome LocalFile
  complete ys f =
      let b = f.read_buffer in
      on_read junk consume b.writer_index (length ys) (ok none)
        (record f { read_buffer = record b { bytes = written b.writer_index ys b.bytes } })

  unfoldable pub complete_all : List Text → LocalFile → Outcome LocalFile
  complete_all [] f = ok f
  complete_all (ys ∷ ps) f = complete ys f >>= complete_all ps

  in_loop_read_all-Awaits :
      (xs : Text) (f : LocalFile)
      → Holds xs f.read_buffer
      → f.read_buffer.writer_index + 4096 ≤ max_size
      → Succeeds (in_loop_read_all junk (ok none) f) λ f'.
        Awaits xs f'
        × (f'.notices ≡ f.notices)
        × (f'.pos ≡ f.pos)
        × (f'.read_buffer.writer_index ≤ f.read_buffer.writer_index)
        × (f'.can_read ≡ f.can_read)
  unfolding in_loop_read_all in_loop_read
  in_loop_read_all-Awaits xs f h fits =
      let r = ensure_writable_bytes-HasRoom junk 4096 h.valid fits in
      (
        record f { read_buffer = r.0; reading = true; reading_all = true },
        rw r.1 refl,
        (
          record {
            holds = record { valid = r.2.valid; same = r.2.kept ∙ h.same };
            room = r.2.room;
            all = refl;
          },
          refl,
          refl,
          r.2.no_higher,
          refl,
        ),
      )

  complete-Awaits :
      (xs ys : Text) (f : LocalFile)
      → Awaits xs f
      → 0 < length ys
      → length ys ≤ 4096
      → f.read_buffer.writer_index + length ys + 4096 ≤ max_size
      → Succeeds (complete ys f) λ f'.
        Awaits (xs ++ ys) f'
        × (f'.notices ≡ f.notices)
        × (f'.pos ≡ (f.pos + length ys) % 2 ^ 64)
        × (f'.read_buffer.writer_index ≤ f.read_buffer.writer_index + length ys)
        × (f'.can_read ≡ f.can_read)
  unfolding complete on_read update_position
  complete-Awaits xs ys f h some_bytes few fits =
      let wrote = store-has_written (length ys) ys h.holds.valid refl (omega (arith, h.room)) in
      let next =
        in_loop_read_all-Awaits (xs ++ ys)
          (update_position (length ys) (record f { read_buffer = wrote.0 }))
          (record {
            valid = wrote.2.0.valid;
            same = wrote.2.0.same ∙ ap (λ t. t ++ ys) h.holds.same;
          })
          (omega (arith, wrote.2.1)) in
      let more : (f.reading_all && not (length ys == 0)) ≡ true =
        rw (h.all, ne→== (length ys) 0 (λ e. omega arith)) refl in
      (
        next.0,
        rw (eq→== f.read_buffer.writer_index f.read_buffer.writer_index refl, wrote.1, more) next.1,
        (next.2.0, next.2.1, next.2.2, omega (arith, wrote.2.1, next.2.3), next.2.4),
      )

  -- How a read of the whole file ends.
  pub record IsRead (xs : Text) (n : ℕ) (f f' : LocalFile) : Type 0 where
    pub called : f'.notices ≡ f.notices ++ read_notices f.can_read xs
    pub idle : f'.reading ≡ false
    pub idle_all : f'.reading_all ≡ false
    pub moved : f'.pos ≡ (f.pos + n) % 2 ^ 64

  complete-IsRead :
      (xs : Text) (f : LocalFile) → Awaits xs f → Succeeds (complete [] f) (IsRead xs 0 f)
  unfolding complete on_read update_position
  complete-IsRead xs f h =
      let b = f.read_buffer in
      let wrote = store-has_written 0 [] h.holds.valid refl (omega (arith, h.room)) in
      let last : (f.reading_all && not (0 == 0)) ≡ false = rw h.all refl in
      (
        record f {
          pos = (f.pos + 0) % 2 ^ 64;
          reading = false;
          reading_all = false;
          read_buffer = if f.can_read then consume wrote.0 else wrote.0;
          notices = f.notices ++ read_notices f.can_read (to_string_view wrote.0);
        },
        rw (eq→== b.writer_index b.writer_index refl, wrote.1, last) refl,
        record {
          called =
              ap (λ t. f.notices ++ read_notices f.can_read t)
                (wrote.2.0.same ∙ append-nil (contents b) ∙ h.holds.same);
          idle = refl;
          idle_all = refl;
          moved = refl;
        },
      )

  complete_all-IsRead :
      (xs : Text) (ps : List Text) (f : LocalFile)
      → Awaits xs f
      → Pieces ps
      → f.read_buffer.writer_index + length (concat ps) + 4096 ≤ max_size
      → Succeeds (complete_all (ps ++ [] ∷ []) f) (IsRead (xs ++ concat ps) (length (concat ps)) f)
  unfolding complete_all
  complete_all-IsRead xs [] f h no_more fits =
      let r = complete-IsRead xs f h in rw (append-nil xs) (r.0, rw r.1 refl, r.2)
  complete_all-IsRead xs (ys ∷ ps) f h (piece some_bytes few more) fits =
      let total = length-append ys (concat ps) in
      let r = complete-Awaits xs ys f h some_bytes few (omega (arith, total)) in
      let rest = complete_all-IsRead (xs ++ ys) ps r.0 r.2.0 more (omega (arith, total, r.2.3)) in
      (
        rest.0,
        rw r.1 rest.1,
        record {
          called =
              rest.2.called
              ∙ ap₂ (λ a t. a ++ t) r.2.1 (ap₂ read_notices r.2.4 (append_assoc xs ys (concat ps)));
          idle = rest.2.idle;
          idle_all = rest.2.idle_all;
          moved = omega (arith, total, rest.2.moved, r.2.2);
        },
      )

  -- `read()` on a file whose valid read buffer holds `xs`, where each read asks the system without error and
  -- completes with one to 4096 bytes, and the last with none: the read callback, where there is one, is called
  -- once, with `xs` and all the pieces in order, the position has moved by their length, and no read is left, wherever a vector of
  -- the size can exist.
  pub read_all_lem :
      (xs : Text) (ps : List Text) (f : LocalFile)
      → Holds xs f.read_buffer
      → Pieces ps
      → f.read_buffer.writer_index + length (concat ps) + 4096 ≤ max_size
      → Succeeds
          (in_loop_read_all junk (ok none) f >>= complete_all (ps ++ [] ∷ []))
          (IsRead (xs ++ concat ps) (length (concat ps)) f)
  read_all_lem xs ps f h pieces fits =
      let first = in_loop_read_all-Awaits xs f h (omega arith) in
      let rest = complete_all-IsRead xs ps first.0 first.2.0 pieces (omega (arith, first.2.3)) in
      (
        rest.0,
        rw first.1 rest.1,
        record {
          called =
              rest.2.called
              ∙ ap₂ (λ a c. a ++ read_notices c (xs ++ concat ps)) first.2.1 first.2.4;
          idle = rest.2.idle;
          idle_all = rest.2.idle_all;
          moved = rest.2.moved ∙ ap (λ p. (p + length (concat ps)) % 2 ^ 64) first.2.2;
        },
      )
