-- ===== src/Buffer/Queue.antt =====
-- The buffer as a queue of bytes: what each operation does to the bytes that can be read.
use hulatang_io.Base.{
  gt→leb, append_assoc, take-append-drop, ℕ, ◌+◌, ◌-◌, ◌≤◌, ◌<◌, ◌≡◌, sym, ap, ap₂, ◌∙◌, inl, inr,
  List, [], ◌++◌, Bool-cases, ltb, leb, le→leb, ltb→lt, ltb→ge, true, arith, length, take, drop,
  slice, length-append, length-take, drop-all, drop-drop, Succeeds, aborted, ok,
}
use hulatang_io.Buffer.{
  Buffer, cheap_prepend, max_size, add64, sub64, readable_bytes, retrieve, retrieve_all,
  retrieve_as_string, has_written, unwrite, prepend, append,
}
use hulatang_io.Buffer.Split.{slice-append, length-slice, slice-store, drop-take, take-take}
use hulatang_io.Buffer.Valid.{IsValid, contents, size}
use hulatang_io.Buffer.Space.{written, store_lem, length-written, ensure_writable_bytes-HasRoom}

-- A valid buffer that holds these bytes.
pub record Holds (xs : List ℕ) (b : Buffer) : Type 0 where
  pub valid : IsValid b
  pub same : contents b ≡ xs

pub slice-drop : (n i j : ℕ) (xs : List ℕ) → drop n (slice i j xs) ≡ slice (i + n) j xs
slice-drop n i j xs = drop-take n (j - i) (drop i xs) ∙ ap₂ take (omega arith) (drop-drop n i xs)

drop-split : (i j : ℕ) (xs : List ℕ) → i ≤ j → drop i xs ≡ slice i j xs ++ drop j xs
drop-split i j xs h =
    sym (take-append-drop (j - i) (drop i xs))
    ∙ ap (λ t. slice i j xs ++ t) (drop-drop (j - i) i xs ∙ ap (λ k. drop k xs) (omega arith))

take-zero : (i : ℕ) (xs : List ℕ) → slice i i xs ≡ []
unfolding take
take-zero i xs = ap (λ k. take k (drop i xs)) zeros
  where
    zeros : i - i ≡ 0
    zeros = omega arith

retrieve_cut :
    (len : ℕ) {b : Buffer}
    → IsValid b
    → len ≤ size b
    → Succeeds (retrieve len b) (Holds (drop len (contents b)))
unfolding retrieve retrieve_all
retrieve_cut len {b} v h = elim (Bool-cases (ltb len (readable_bytes b))) [
  | inl part ↦ (
    record b { reader_index = add64 b.reader_index len },
    rw (le→leb len (readable_bytes b) (omega arith), part),
    record {
      valid = omega (arith, ltb→lt _ _ part);
      same =
          ap (λ k. slice k b.writer_index b.bytes) (advance (ltb→lt _ _ part))
          ∙ sym (slice-drop len b.reader_index b.writer_index b.bytes);
    },
  )
  | inr whole ↦ (
    record b { reader_index = cheap_prepend; writer_index = cheap_prepend },
    rw (le→leb len (readable_bytes b) (omega arith), whole),
    record {
      valid = omega arith;
      same =
          take-zero 8 b.bytes
          ∙ sym (
              drop-all len (contents b) (
                omega (
                  arith,
                  length-slice b.reader_index b.writer_index b.bytes v.ordered v.within,
                  ltb→ge _ _ whole,
                )));
    },
  )
]
  where
    advance : len < readable_bytes b → add64 b.reader_index len ≡ b.reader_index + len
    advance p = omega arith

retrieve_too_much : (len : ℕ) {b : Buffer} → IsValid b → size b < len → retrieve len b ≡ aborted
unfolding retrieve
retrieve_too_much len {b} v h = rw (gt→leb len (readable_bytes b) (omega arith))

-- Nor does the write index leave a bound, for histories of calls.
pub retrieve-bound :
    (len bound : ℕ) (b b' : Buffer)
    → retrieve len b ≡ ok b'
    → 8 ≤ bound
    → b.writer_index ≤ bound
    → b'.writer_index ≤ bound
unfolding retrieve retrieve_all
retrieve-bound len bound b b' e h h' = ground arith

-- `retrieve(len)` on a valid buffer drops the first `len` readable bytes and keeps the invariant,
-- and its assertion fails exactly where fewer bytes can be read.
pub retrieve_lem :
    (len : ℕ) {b : Buffer}
    → IsValid b
    → (len ≤ size b → Succeeds (retrieve len b) (Holds (drop len (contents b))))
      × (size b < len → retrieve len b ≡ aborted)
retrieve_lem len v = (retrieve_cut len v, retrieve_too_much len v)

-- On a valid buffer with `len` readable bytes or more, `retrieveAsString(len)` returns the first
-- `len` of them, leaves the others and keeps the invariant.
pub retrieve_as_string_lem :
    (len : ℕ) {b : Buffer}
    → IsValid b
    → len ≤ size b
    → Succeeds
        (retrieve_as_string len b)
        λ r. (r.0 ≡ take len (contents b)) × Holds (drop len (contents b)) r.1
unfolding retrieve_as_string
retrieve_as_string_lem len {b} v h =
    let r = retrieve_cut len v h in
    (
      (take len (drop b.reader_index b.bytes), r.0),
      rw (le→leb len (readable_bytes b) (omega arith), r.1),
      (sym (take-take len (b.writer_index - b.reader_index) (drop b.reader_index b.bytes) h), r.2),
    )

pub retrieve_as_string-bound :
    (len bound : ℕ) (b : Buffer) (r : List ℕ × Buffer)
    → retrieve_as_string len b ≡ ok r
    → 8 ≤ bound
    → b.writer_index ≤ bound
    → r.1.writer_index ≤ bound
unfolding retrieve_as_string retrieve retrieve_all
retrieve_as_string-bound len bound b r e h h' = ground arith

-- On a valid buffer with `len` readable bytes or more, `unwrite(len)` takes the last `len` of them
-- back and keeps the invariant.
pub unwrite_lem :
    (len : ℕ) {b : Buffer}
    → IsValid b
    → len ≤ size b
    → Succeeds (unwrite len b) (Holds (take (size b - len) (contents b)))
unfolding unwrite
unwrite_lem len {b} v h = (
  record b { writer_index = sub64 b.writer_index len },
  rw (le→leb len (readable_bytes b) (omega arith)),
  record {
    valid = omega arith;
    same =
        ap (λ k. take k (drop b.reader_index b.bytes)) (omega arith)
        ∙ sym (take-take (size b - len) (size b) (drop b.reader_index b.bytes) (omega arith));
  },
)

-- On a valid buffer, `prepend` puts bytes in front of the readable ones and keeps the invariant
-- where there is room before the read index, and its assertion fails where there is not.
pub prepend_lem :
    (xs : List ℕ) {b : Buffer}
    → IsValid b
    → (length xs ≤ b.reader_index → Succeeds (prepend xs b) (Holds (xs ++ contents b)))
      × (b.reader_index < length xs → prepend xs b ≡ aborted)
unfolding prepend
prepend_lem xs {b} v = (placed, λ h. rw (gt→leb (length xs) b.reader_index h))
  where
    rest :
        length xs ≤ b.reader_index
        → drop (sub64 b.reader_index (length xs) + length xs) b.bytes
          ≡ contents b ++ drop b.writer_index b.bytes
    rest h =
        ap (λ k. drop k b.bytes) (omega arith)
        ∙ drop-split b.reader_index b.writer_index b.bytes v.ordered

    placed : length xs ≤ b.reader_index → Succeeds (prepend xs b) (Holds (xs ++ contents b))
    placed h =
        let r = sub64 b.reader_index (length xs) in
        let fits : r + length xs ≤ length b.bytes = omega arith in
        (
          record b { bytes = written r xs b.bytes; reader_index = r },
          rw (le→leb (length xs) b.reader_index h, store_lem r xs b.bytes fits),
          record {
            valid = omega (arith, length-written r xs b.bytes fits);
            same =
                ap (λ t. slice r b.writer_index (take r b.bytes ++ (xs ++ t))) (rest h)
                ∙ ap (λ t. slice r b.writer_index (take r b.bytes ++ t))
                    (sym (append_assoc xs (contents b) (drop b.writer_index b.bytes)))
                ∙ slice-append r b.writer_index (take r b.bytes) (xs ++ contents b) _
                    (omega (arith, length-take r b.bytes))
                    (omega (
                      arith,
                      length-take r b.bytes,
                      length-append xs (contents b),
                      length-slice b.reader_index b.writer_index b.bytes v.ordered v.within,
                    ));
          },
        )

module _ (junk : ℕ → ℕ) where
  -- The same, with a bound on the write index, for histories of calls.
  pub append_within :
      (xs : List ℕ) (len : ℕ) {b : Buffer}
      → IsValid b
      → len ≤ length xs
      → b.writer_index + len ≤ max_size
      → Succeeds
          (append junk xs len b)
          λ b'. Holds (contents b ++ take len xs) b' × (b'.writer_index ≤ b.writer_index + len)
  unfolding append has_written
  append_within xs len {b} v enough fits =
      let r = ensure_writable_bytes-HasRoom junk len v fits in
      let b' = r.0 in
      let ys = take len xs in
      let sized = length-take len xs enough in
      let inside : b'.writer_index + length ys ≤ length b'.bytes = omega (arith, r.2.room, sized) in
      let long = length-written b'.writer_index ys b'.bytes inside in
      let tested : leb len (sub64 (length (written b'.writer_index ys b'.bytes)) b'.writer_index)
          ≡ true =
        le→leb _ _ (omega (arith, r.2.valid, r.2.room, long)) in
      (
        record b' {
          bytes = written b'.writer_index ys b'.bytes;
          writer_index = add64 b'.writer_index len;
        },
        rw (
          r.1,
          le→leb len (length xs) enough,
          store_lem b'.writer_index ys b'.bytes inside,
          tested,
        ),
        (
          record {
            valid = omega (arith, r.2.valid, r.2.room, long);
            same =
                slice-store b'.reader_index b'.writer_index (add64 b'.writer_index len) b'.bytes ys
                  _ r.2.valid.ordered r.2.valid.within (omega (arith, r.2.valid, r.2.room, sized))
                ∙ ap (λ t. t ++ ys) r.2.kept;
          },
          omega (arith, r.2.room, r.2.no_higher),
        ),
      )

  -- `append(data, len)` on a valid buffer adds the `len` bytes at `data` behind the readable ones,
  -- in order, and keeps the invariant, wherever a vector of the size can exist.
  pub append_lem :
      (xs : List ℕ) (len : ℕ) {b : Buffer}
      → IsValid b
      → len ≤ length xs
      → b.writer_index + len ≤ max_size
      → Succeeds (append junk xs len b) (Holds (contents b ++ take len xs))
  append_lem xs len v enough fits = let r = append_within xs len v enough fits in (r.0, r.1, r.2.0)
