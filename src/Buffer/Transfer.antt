-- ===== src/Buffer/Transfer.antt =====
-- Whole buffers: making, copying, moving and shrinking them.
use hulatang_io.Base.{
  ℕ, suc, ◌+◌, ◌≤◌, ◌<◌, ◌≡◌, refl, ap, ◌∙◌, List, [], ◌∷◌, ◌++◌, ◌==◌, eq→==, true, arith, length,
  take, take-all, drop-all, Succeeds, ok, undefined,
}
use hulatang_io.Buffer.{
  Buffer, max_size, initial_size, add64, readable_bytes, writable_bytes, retrieve_all,
  retrieve_all_as_string, append, append_view, append_buffer, shrink, new, swap, move_construct,
  store, ensure_writable_bytes,
}
use hulatang_io.Buffer.Split.{length-slice}
use hulatang_io.Buffer.Valid.{IsValid, contents, size}
use hulatang_io.Buffer.Space.{ensure_writable_bytes-HasRoom, resize-grow}
use hulatang_io.Buffer.Queue.{Holds, append_lem, retrieve_as_string_lem}

pub length-contents : {b : Buffer} → IsValid b → length (contents b) ≡ size b
length-contents {b} v = length-slice b.reader_index b.writer_index b.bytes v.ordered v.within

-- What is added to nothing is all.
Holds-onto :
    (b : Buffer) {c : Buffer} {xs : List ℕ}
    → contents b ≡ []
    → Holds (contents b ++ xs) c
    → Holds xs c
Holds-onto b {xs = xs} e h = record { valid = h.valid; same = h.same ∙ ap (λ t. t ++ xs) e }

module _ (junk : ℕ → ℕ) where
  -- `append(std::string_view)` on a valid buffer adds the text behind the readable bytes, and
  -- keeps the invariant, wherever a vector of the size can exist.
  pub append_view_lem :
      (xs : List ℕ) {b : Buffer}
      → IsValid b
      → b.writer_index + length xs ≤ max_size
      → Succeeds (append_view junk xs b) (Holds (contents b ++ xs))
  unfolding append_view
  append_view_lem xs {b} v fits =
      let r = append_lem junk xs (length xs) v (omega arith) fits in
      (
        r.0,
        r.1,
        record {
          valid = r.2.valid;
          same = r.2.same ∙ ap (λ t. contents b ++ t) (take-all (length xs) xs (omega arith));
        },
      )

  -- The constructor gives a valid, empty buffer with `n` writable bytes.
  pub new_lem :
      (n : ℕ)
      → n + 8 ≤ max_size
      → Succeeds
          (new junk n)
          λ b. Holds [] b × (b.reader_index ≡ 8) × (b.writer_index ≡ 8) × (writable_bytes b ≡ n)
  unfolding new take
  new_lem n h =
      let r = resize-grow junk (add64 8 n) [] (omega arith) (omega arith) in
      let tested : (writable_bytes (record { bytes = r.0; reader_index = 8; writer_index = 8 })
            == n)
          ≡ true =
        eq→== _ _ (omega (arith, r.2.1)) in
      (
        record { bytes = r.0; reader_index = 8; writer_index = 8 },
        rw (r.1, tested),
        (record { valid = omega (arith, r.2.1); same = refl }, refl, refl, omega (arith, r.2.1)),
      )

  -- Between valid buffers, wherever a vector of the size can exist, `append(const BufferEndian &)`
  -- adds as many bytes as can be read from `other`, but takes them from the start of its storage,
  -- the prepend area included, and not from its read index.
  pub append_buffer_lem :
      {other b : Buffer}
      → IsValid other
      → IsValid b
      → b.writer_index + size other ≤ max_size
      → Succeeds (append_buffer junk other b) (Holds (contents b ++ take (size other) other.bytes))
  unfolding append_buffer
  append_buffer_lem {other} {b} vo v fits =
      rw (← same_size)
        (append_lem junk other.bytes (readable_bytes other) v (omega arith) (omega arith))
    where
      same_size : readable_bytes other ≡ size other
      same_size = omega arith

  -- `shrink(reserve)` keeps the readable bytes and the invariant of a valid buffer, wherever a
  -- vector of the size can exist.
  pub shrink_lem :
      (reserve : ℕ) {b : Buffer}
      → IsValid b
      → size b + reserve + initial_size + 8 ≤ max_size
      → Succeeds (shrink junk reserve b) (Holds (contents b))
  unfolding shrink swap
  shrink_lem reserve {b} v fits =
      let n = new_lem initial_size (omega arith) in
      let e =
        ensure_writable_bytes-HasRoom junk (add64 (readable_bytes b) reserve) n.2.0.valid
          (omega (arith, n.2)) in
      let a =
        append_view_lem (contents b) e.2.valid
          (omega (arith, e.2.valid, e.2.room, length-contents v)) in
      (a.0, rw (n.1, e.1, a.1), Holds-onto e.0 {c = a.0} (e.2.kept ∙ n.2.0.same) a.2)

  -- What is appended to a valid buffer with nothing to read, wherever a vector of the size can
  -- exist, comes out of `retrieveAllAsString` unchanged, and leaves the buffer valid and empty.
  pub retrieve_all_as_string-append_view :
      (xs : List ℕ) {b : Buffer}
      → Holds [] b
      → b.writer_index + length xs ≤ max_size
      → (b' : Buffer) × (append_view junk xs b ≡ ok b')
        × Succeeds (retrieve_all_as_string b') λ r. (r.0 ≡ xs) × Holds [] r.1
  unfolding retrieve_all_as_string
  retrieve_all_as_string-append_view xs {b} h fits =
      let a = append_view_lem xs h.valid fits in
      let held = Holds-onto b h.same a.2 in
      let full = length-contents held.valid in
      let r = retrieve_as_string_lem (readable_bytes a.0) a.2.valid (omega (arith, a.2.valid)) in
      (
        a.0,
        a.1,
        (
          r.0,
          r.1,
          (
            r.2.0
                ∙ take-all (readable_bytes a.0) (contents a.0) (omega (arith, full, held.valid))
                ∙ held.same,
            record {
              valid = r.2.1.valid;
              same =
                  r.2.1.same
                  ∙ drop-all (readable_bytes a.0) (contents a.0) (omega (arith, full, held.valid));
            },
          ),
        ),
      )

  -- A buffer that was moved from has no storage: cleared and appended to, one byte or more and
  -- less than a vector can hold, it writes outside.
  pub moved_from_append :
      (other : Buffer) (x : ℕ) (xs : List ℕ)
      → length xs < max_size
      → append_view junk (x ∷ xs) (retrieve_all (move_construct other).1) ≡ undefined
  unfolding append_view append ensure_writable_bytes store move_construct swap retrieve_all
  moved_from_append other x xs h = ground (arith, take-all (suc (length xs)) (x ∷ xs))
