-- ===== src/Http/Response/Body.antt =====
-- The body of a response that states its length: `contentLength`.
use hulatang_io.Base.{
  ℕ, ◌+◌, ◌^◌, ◌≤◌, ◌<◌, ◌≡◌, refl, ap, ◌∙◌, length, take, drop, length-drop, drop-drop, arith, ltb,
  lt→ltb, ge→ltb, gt→leb, leb, false, ok, aborted, Succeeds,
}
use hulatang_io.Buffer.{add64, readable_bytes, retrieve_as_string}
use hulatang_io.Buffer.Valid.{IsValid, contents, size}
use hulatang_io.Buffer.Queue.{Holds, retrieve_lem, retrieve_as_string_lem}
use hulatang_io.Buffer.Transfer.{length-contents}
use hulatang_io.Http.Response.{Builder, no_error, wait_for_data, content_length}

-- the builder's result: the body and what stays in the buffer
pub record HasBody (s : Builder) (len : ℕ) (s' : Builder) : Type 0 where
  pub code_set : s'.code ≡ no_error
  pub body_read : s'.body_text ≡ take len (drop (s.read_number + 2) (contents s.buf))
  pub rest_kept : Holds (drop (s.read_number + 2 + len) (contents s.buf)) s'.buf

content_length_waits :
    (len : ℕ) (s : Builder)
    → IsValid s.buf
    → s.read_number + len + 2 < 2 ^ 64
    → size s.buf < s.read_number + len + 2
    → content_length len s ≡ ok (record s { code = wait_for_data })
unfolding content_length
content_length_waits len s v fits h = rw (lt→ltb _ _ short)
  where
    short : readable_bytes s.buf < add64 (add64 s.read_number len) 2
    short = omega arith

content_length_reads :
    (len : ℕ) (s : Builder)
    → IsValid s.buf
    → s.read_number + len + 2 < 2 ^ 64
    → s.read_number + len + 2 ≤ size s.buf
    → Succeeds (content_length len s) (HasBody s len)
unfolding content_length
content_length_reads len s v fits h =
    let n = add64 s.read_number 2 in
    let cut = (retrieve_lem n v).0 (omega arith) in
    let left = length-contents cut.2.valid in
    let shorter = ap length cut.2.same ∙ length-drop n (contents s.buf) in
    let r =
      retrieve_as_string_lem len cut.2.valid (omega (arith, left, shorter, length-contents v)) in
    let at : n ≡ s.read_number + 2 = omega arith in
    let test : ltb (readable_bytes s.buf) (add64 (add64 s.read_number len) 2) ≡ false =
      ge→ltb _ _ (omega arith) in
    (
      record s { buf = r.0.1; body_text = r.0.0; code = no_error },
      rw (test, cut.1, r.1),
      record {
        code_set = refl;
        body_read = r.2.0 ∙ ap (take len) (cut.2.same ∙ ap (λ k. drop k (contents s.buf)) at);
        rest_kept = record {
          valid = r.2.1.valid;
          same =
              r.2.1.same
              ∙ ap (drop len) cut.2.same
              ∙ drop-drop len n (contents s.buf)
              ∙ ap (λ k. drop (k + len) (contents s.buf)) at;
        };
      },
    )

-- With a stated length that does not overflow `size_t`, the builder waits exactly as long as the
-- body and the blank line before it are not all in the buffer, and changes nothing else then; once
-- they are, the body is the stated number of bytes behind the blank line, and the buffer is left
-- valid with what follows the body.
pub content_length_lem :
    (len : ℕ) (s : Builder)
    → IsValid s.buf
    → s.read_number + len + 2 < 2 ^ 64
    → (size s.buf < s.read_number + len + 2
        → content_length len s ≡ ok (record s { code = wait_for_data }))
      × (s.read_number + len + 2 ≤ size s.buf → Succeeds (content_length len s) (HasBody s len))
content_length_lem len s v fits =
    (content_length_waits len s v fits, content_length_reads len s v fits)

-- In a valid buffer that holds more than the headers and two bytes, a stated length below 2 ^ 64
-- that is so large that the sum wraps passes the check: the builder does not wait for the body,
-- and an assertion fails.
pub content_length_wraps :
    (len : ℕ) (s : Builder)
    → IsValid s.buf
    → len < 2 ^ 64
    → s.read_number + 2 < size s.buf
    → 2 ^ 64 ≤ s.read_number + len + 2
    → content_length len s ≡ aborted
unfolding content_length retrieve_as_string
content_length_wraps len s v small h wraps =
    let n = add64 s.read_number 2 in
    let cut = (retrieve_lem n v).0 (omega arith) in
    let left = length-contents cut.2.valid in
    let shorter = ap length cut.2.same ∙ length-drop n (contents s.buf) in
    let test : ltb (readable_bytes s.buf) (add64 (add64 s.read_number len) 2) ≡ false =
      ge→ltb _ _ (omega arith) in
    let fails : leb len (readable_bytes cut.0) ≡ false =
      gt→leb _ _ (omega (arith, left, shorter, length-contents v, cut.2.valid)) in
    rw (test, cut.1, fails)
