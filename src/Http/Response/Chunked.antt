-- ===== src/Http/Response/Chunked.antt =====
-- The end of a chunked body: `transferEncoding`.
use hulatang_io.Base.{
  ℕ, ◌+◌, ◌-◌, ◌≤◌, ◌≡◌, refl, sym, ap, ◌∙◌, [], ◌∷◌, take, drop, slice, arith, le→leb, Option,
  none, some, Text, ok, Succeeds,
}
use hulatang_io.Buffer.{Buffer, add64, sub64, search_crlf, find_crlf_from, at_offset}
use hulatang_io.Buffer.Split.{take-take}
use hulatang_io.Buffer.Valid.{IsValid}
use hulatang_io.Buffer.Queue.{slice-drop}
use hulatang_io.Http.Number.{
  stoul, skip_spaces, signed, unprefixed, magnitude, read_digits, digit_value,
}
use hulatang_io.Http.Response.{
  Builder, wait_for_data, next_line, current_line, chunk, last_chunk, transfer_loop,
  transfer_encoding,
}

-- `findCRLF(start)` searches what stands from `start` to the write index.
pub find_crlf_from_lem :
    (i : ℕ) (b : Buffer) (xs : Text)
    → b.reader_index ≤ i
    → i ≤ b.writer_index
    → slice i b.writer_index b.bytes ≡ xs
    → find_crlf_from i b ≡ ok (at_offset i (search_crlf xs))
unfolding find_crlf_from
find_crlf_from_lem i b xs p q e = rw (le→leb _ _ p, le→leb _ _ q, e)

-- what stands `n` bytes behind the last line break of the buffer
later_slice :
    (n c : ℕ) (b : Buffer) (xs : Text)
    → slice c b.writer_index b.bytes ≡ xs
    → slice (c + n) b.writer_index b.bytes ≡ drop n xs
later_slice n c b xs e = sym (slice-drop n c b.writer_index b.bytes) ∙ ap (drop n) e

abbrev pub last_chunk_text : Text
last_chunk_text = 13 ∷ 10 ∷ b'0' ∷ 13 ∷ 10 ∷ 13 ∷ 10 ∷ []

module _ (c : ℕ) (b : Buffer) (v : IsValid b) (above : b.reader_index ≤ c)
    (at : c + 7 ≡ b.writer_index) (e : slice c b.writer_index b.bytes ≡ last_chunk_text) where
  size_line : find_crlf_from (c + 2) b ≡ ok (some (c + 2 + 1))
  unfolding search_crlf drop
  size_line = find_crlf_from_lem (c + 2) b _ (omega arith) (omega arith) (later_slice 2 c b _ e)

  blank_line : find_crlf_from (c + 2 + 1 + 2) b ≡ ok (some (c + 2 + 1 + 2 + 0))
  unfolding search_crlf drop
  blank_line =
      find_crlf_from_lem (c + 2 + 1 + 2) b (13 ∷ 10 ∷ []) (omega arith) (omega arith)
        (ap (λ k. slice k b.writer_index b.bytes) (omega arith) ∙ later_slice 5 c b _ e)

  nothing_left : find_crlf_from (c + 2 + 1 + 2 + 0 + 2) b ≡ ok none
  unfolding search_crlf drop
  nothing_left =
      find_crlf_from_lem (c + 2 + 1 + 2 + 0 + 2) b [] (omega arith) (omega arith)
        (ap (λ k. slice k b.writer_index b.bytes) (omega arith) ∙ later_slice 7 c b _ e)

  size_text : slice (c + 2) (c + 2 + 1) b.bytes ≡ b'0' ∷ []
  unfolding take drop
  size_text =
      ap (λ k. take k (drop (c + 2) b.bytes)) one
      ∙ sym (take-take 1 (b.writer_index - (c + 2)) (drop (c + 2) b.bytes) (omega arith))
      ∙ ap (take 1) (later_slice 2 c b _ e)
    where
      one : c + 2 + 1 - (c + 2) ≡ 1
      one = omega arith

-- one step on, with the next line break found
pub advanced : Builder → ℕ → Option ℕ → Builder
advanced s c r = record s {
  read_number = add64 (add64 s.read_number (sub64 c s.start)) 2;
  start = c + 2;
  crlf = r;
}

pub next_line_lem :
    (s : Builder) (c : ℕ) (r : Option ℕ)
    → s.crlf ≡ some c
    → find_crlf_from (c + 2) s.buf ≡ ok r
    → next_line s ≡ ok (advanced s c r)
unfolding next_line advanced
next_line_lem s c r p q = rw (p, next_line) (rw q)

pub current_line_lem :
    (s : Builder) (c : ℕ)
    → s.crlf ≡ some c
    → s.start ≤ c
    → current_line s ≡ ok (slice s.start c s.buf.bytes)
unfolding current_line
current_line_lem s c p h = rw (p, current_line) (rw (le→leb _ _ h))

-- Where a valid buffer ends right behind the chunk of size 0 and its blank line, and the builder
-- stands at the line break before that chunk, the builder still waits for data, and the buffer is
-- unchanged.
pub last_chunk_waits :
    (s : Builder) (c : ℕ)
    → IsValid s.buf
    → s.crlf ≡ some c
    → s.buf.reader_index ≤ c
    → c + 7 ≡ s.buf.writer_index
    → slice c s.buf.writer_index s.buf.bytes ≡ last_chunk_text
    → Succeeds (transfer_encoding s) λ s'. (s'.code ≡ wait_for_data) × (s'.buf ≡ s.buf)
unfolding transfer_encoding transfer_loop advanced chunk last_chunk stoul skip_spaces signed
    unprefixed magnitude read_digits digit_value
last_chunk_waits s c v at_c above at e =
    let s0 = record s { code = wait_for_data } in
    let s1 = advanced s0 c (some (c + 2 + 1)) in
    let l1 = record s1 { line = b'0' ∷ [] } in
    let s2 = advanced l1 (c + 2 + 1) (some (c + 2 + 1 + 2 + 0)) in
    let s3 = advanced s2 (c + 2 + 1 + 2 + 0) none in
    let e1 = next_line_lem s0 c _ at_c (size_line c s.buf v above at e) in
    let e2 : current_line s1 ≡ ok (b'0' ∷ []) =
      current_line_lem s1 (c + 2 + 1) refl (omega arith) ∙ ap ok (size_text c s.buf v above at e) in
    let e3 = next_line_lem l1 (c + 2 + 1) _ refl (blank_line c s.buf v above at e) in
    let e4 = next_line_lem s2 (c + 2 + 1 + 2 + 0) none refl (nothing_left c s.buf v above at e) in
    (s3, rw (e1, e2, e3, e4), (refl, refl))
