-- ===== src/Http/Response/Consumption.antt =====
-- What reading a response takes out of the buffer, on every path that returns.
use hulatang_io.Base.{
  ℕ, zero, suc, ◌≡◌, sym, ap, subst, ◌∙◌, ◌⊎◌, inl, inr, [], ◌∷◌, arith, Option-cases, Bool-cases,
  drop, ltb, leb, ◌==◌, assert, length, Option, Text, codes, text_eq, Outcome, ok, dec_le,
  ok-injective, >>=-inverse, drop-drop, ◌+◌,
}
use hulatang_io.Buffer.{Buffer, retrieve, retrieve_as_string, add64, readable_bytes}
use hulatang_io.Buffer.Valid.{IsValid, contents, size}
use hulatang_io.Buffer.Queue.{Holds, retrieve_lem}
use hulatang_io.Http.Number.{stoi, stoul}
use hulatang_io.Http.Response.{
  ErrorCode, no_error, find_header, Builder, next_line, current_line, status_line, message_header,
  message_loop, message_line, content_length, last_chunk, data_chunk, chunk, transfer_loop,
  transfer_encoding, by_length, body_line, parse, Response, build_from_buffer,
}

-- The buffer is as it was, or the response is complete and a first part of the buffer is gone.
pub data Consumed (b : Buffer) (s : Builder) : Type 0 where
  untouched : s.buf ≡ b → Consumed b s
  taken : (n : ℕ) → s.code ≡ no_error → Holds (drop n (contents b)) s.buf → Consumed b s

-- A `retrieve` that returns was given no more than there was.
pub retrieve-Holds :
    (len : ℕ) (b b' : Buffer)
    → IsValid b
    → retrieve len b ≡ ok b'
    → Holds (drop len (contents b)) b'
retrieve-Holds len b b' v e = elim (dec_le len (size b)) [
  | yes le ↦
      let r = (retrieve_lem len v).0 le in
      subst (Holds (drop len (contents b))) (ok-injective _ _ (sym r.1 ∙ e)) r.2
  | no gt ↦ (let fails = sym ((retrieve_lem len v).1 (omega arith)) ∙ e in absurd cc)
]

next_line-buf : (s s' : Builder) → next_line s ≡ ok s' → s'.buf ≡ s.buf
unfolding next_line
next_line-buf s s' e = ground arith

-- What the rest of a loop does to the buffer of the builder that it is given.
abbrev Keeps : (Builder → Outcome Builder) → Builder → Type 0
Keeps next s' = (t : Builder) → next t ≡ ok s' → s'.buf ≡ t.buf

header-buf :
    (next : Builder → Outcome Builder) (s s' : Builder) (line : Text)
    → Keeps next s'
    → message_header next s line ≡ ok s'
    → s'.buf ≡ s.buf
unfolding message_header
header-buf next s s' [] h e = sym (ap (λ (t : Builder). t.buf) (ok-injective _ _ e))
header-buf next s s' (c ∷ cs) h e = h _ e

message_loop-buf : (fuel : ℕ) (s s' : Builder) → message_loop fuel s ≡ ok s' → s'.buf ≡ s.buf
unfolding message_loop
message_loop-buf zero s s' e = absurd cc
message_loop-buf (suc fuel) s s' e =
    let (s1, e1, r1) = >>=-inverse (next_line s) _ s' e in
    let (line, e2, r2) = >>=-inverse (current_line s1) _ s' r1 in
    header-buf (message_loop fuel) s1 s' line (λ t. message_loop-buf fuel t s') r2
    ∙ next_line-buf s s1 e1

result-buf : (s s' : Builder) → ok s ≡ ok s' → s'.buf ≡ s.buf
result-buf s s' e = sym (ap (λ (t : Builder). t.buf) (ok-injective _ _ e))

result-code : (s s' : Builder) → ok s ≡ ok s' → s'.code ≡ s.code
result-code s s' e = sym (ap (λ (t : Builder). t.code) (ok-injective _ _ e))

retrieve_as_string-Holds :
    (len : ℕ) (b : Buffer) (r : Text × Buffer)
    → IsValid b
    → retrieve_as_string len b ≡ ok r
    → Holds (drop len (contents b)) r.1
unfolding retrieve_as_string
retrieve_as_string-Holds len b r v e =
    let (u, e1, r1) = >>=-inverse (assert (leb len (readable_bytes b))) _ r e in
    let (b', e2, r2) = >>=-inverse (retrieve len b) _ r r1 in
    subst (λ (x : Text × Buffer). Holds (drop len (contents b)) x.1) (ok-injective _ _ r2)
      (retrieve-Holds len b b' v e2)

content_length-Consumed :
    (len : ℕ) (s s' : Builder) → IsValid s.buf → content_length len s ≡ ok s' → Consumed s.buf s'
unfolding content_length
content_length-Consumed len s s' v e =
    elim (Bool-cases (ltb (readable_bytes s.buf) (add64 (add64 s.read_number len) 2))) [
      | inl waits ↦ untouched (result-buf _ s' (rw waits at e))
      | inr there ↦
          let n = add64 s.read_number 2 in
          let (b, e1, r1) = >>=-inverse (retrieve n s.buf) _ s' (rw there at e) in
          let (r, e2, r2) = >>=-inverse (retrieve_as_string len b) _ s' r1 in
          let cut = retrieve-Holds n s.buf b v e1 in
          let left = retrieve_as_string-Holds len b r cut.valid e2 in
          taken (n + len) (result-code _ s' r2) (
            rw (result-buf _ s' r2) (record {
              valid = left.valid;
              same = left.same ∙ ap (drop len) cut.same ∙ drop-drop len n (contents s.buf);
            }))
    ]

last_chunk-Consumed : (s s' : Builder) → IsValid s.buf → last_chunk s ≡ ok s' → Consumed s.buf s'
unfolding last_chunk
last_chunk-Consumed s s' v e =
    let (s1, e1, r1) = >>=-inverse (next_line s) _ s' e in
    let same = next_line-buf s s1 e1 in
    elim (Option-cases s1.crlf) [
      | inl p ↦ untouched (result-buf s1 s' (rw p at r1) ∙ same)
      | inr (c, p) ↦
          let (b, e2, r2) = >>=-inverse (retrieve s1.read_number s1.buf) _ s' (rw p at r1) in
          taken s1.read_number (result-code _ s' r2)
            (rw (result-buf _ s' r2) (retrieve-Holds s1.read_number s.buf b v (rw same at e2)))
    ]

-- What the rest of the loop over the chunks takes.
abbrev Consumes : (Builder → Outcome Builder) → Builder → Type 0
Consumes next s' = (t : Builder) → IsValid t.buf → next t ≡ ok s' → Consumed t.buf s'

data_chunk-Consumed :
    (next : Builder → Outcome Builder) (len : ℕ) (s s' : Builder)
    → IsValid s.buf
    → Consumes next s'
    → data_chunk next len s ≡ ok s'
    → Consumed s.buf s'
unfolding data_chunk
data_chunk-Consumed next len s s' v h e =
    elim (Bool-cases (leb (s.buf.reader_index + s.read_number + len) (length s.buf.bytes))) [
      | inl inside ↦ h _ v (rw inside at e)
      | inr outside ↦ (let fails = rw outside at e in absurd cc)
    ]

chunk-Consumed :
    (next : Builder → Outcome Builder) (len : ℕ) (s s' : Builder)
    → IsValid s.buf
    → Consumes next s'
    → chunk next len s ≡ ok s'
    → Consumed s.buf s'
unfolding chunk
chunk-Consumed next len s s' v h e = elim (Bool-cases (len == 0)) [
  | inl last ↦ last_chunk-Consumed s s' v (rw last at e)
  | inr more ↦ elim (Bool-cases (ltb (readable_bytes s.buf) (add64 (add64 s.read_number len) 2))) [
    | inl waits ↦ untouched (result-buf s s' (rw (more, waits) at e))
    | inr there ↦ data_chunk-Consumed next len s s' v h (rw (more, there) at e)
  ]
]

transfer_loop-Consumed :
    (fuel : ℕ) (s s' : Builder) → IsValid s.buf → transfer_loop fuel s ≡ ok s' → Consumed s.buf s'
unfolding transfer_loop
transfer_loop-Consumed zero s s' v e = absurd cc
transfer_loop-Consumed (suc fuel) s s' v e =
    let (s1, e1, r1) = >>=-inverse (next_line s) _ s' e in
    let same1 = next_line-buf s s1 e1 in
    elim (Option-cases s1.crlf) [
      | inl p ↦ untouched (result-buf s1 s' (rw p at r1) ∙ same1)
      | inr (c, p) ↦
          let (line, e2, r2) = >>=-inverse (current_line s1) _ s' (rw p at r1) in
          let (s2, e3, r3) = >>=-inverse (next_line (record s1 { line = line })) _ s' r2 in
          let same2 = next_line-buf _ s2 e3 ∙ same1 in
          elim (Option-cases s2.crlf) [
            | inl q ↦ untouched (result-buf s2 s' (rw q at r3) ∙ same2)
            | inr (d, q) ↦
                let (len, e4, r4) = >>=-inverse (stoul 16 line) _ s' (rw q at r3) in
                subst (λ b. Consumed b s') same2
                  (chunk-Consumed (transfer_loop fuel) len s2 s' (rw same2 v)
                    (λ t. transfer_loop-Consumed fuel t s') r4)
          ]
    ]

by_length-Consumed : (s s' : Builder) → IsValid s.buf → by_length s ≡ ok s' → Consumed s.buf s'
unfolding by_length
by_length-Consumed s s' v e = elim (Option-cases (find_header (codes "Content-Length") s.headers)) [
  | inl p ↦ untouched (result-buf s s' (rw (p, by_length) at e))
  | inr (value, p) ↦
      let (len, e1, r1) = >>=-inverse (stoul 10 value) _ s' (rw (p, by_length) at e) in
      content_length-Consumed len s s' v r1
]

body_line-Consumed : (s s' : Builder) → IsValid s.buf → body_line s ≡ ok s' → Consumed s.buf s'
unfolding body_line transfer_encoding
body_line-Consumed s s' v e =
    elim (Option-cases (find_header (codes "Transfer-Encoding") s.headers)) [
      | inl p ↦ by_length-Consumed _ s' v (rw (p, body_line) at e)
      | inr (value, p) ↦ elim (Bool-cases (text_eq value (codes "chunked"))) [
        | inl chunked ↦
            transfer_loop-Consumed (suc s.buf.writer_index) _ s' v (rw (p, body_line, chunked) at e)
        | inr other ↦ by_length-Consumed _ s' v (rw (p, body_line, other) at e)
      ]
    ]

status_line-buf : (s s' : Builder) → status_line s ≡ ok s' → s'.buf ≡ s.buf
unfolding status_line
status_line-buf s s' e =
    let (line, e1, r1) = >>=-inverse (current_line s) _ s' e in
    let (st, e2, r2) = >>=-inverse (stoi _) _ s' r1 in result-buf _ s' r2

parse-Consumed : (b : Buffer) (s' : Builder) → IsValid b → parse b ≡ ok s' → Consumed b s'
unfolding parse message_line
parse-Consumed b s' v e =
    let (s1, e1, r1) = >>=-inverse (status_line _) _ s' e in
    let (s2, e2, r2) = >>=-inverse (message_loop (suc s1.buf.writer_index) _) _ s' r1 in
    let same = message_loop-buf (suc s1.buf.writer_index) _ s2 e2 ∙ status_line-buf _ s1 e1 in
    subst (λ x. Consumed x s') same (body_line-Consumed s2 s' (rw same v) r2)

-- Where `buildFromBuffer` returns on a valid buffer, either the buffer is as it was, or there is no error
-- and a first part of its bytes is gone: whatever the bytes are, an error takes nothing out of the buffer,
-- and the buffer stays valid.
pub build_from_buffer-consumes :
    (b : Buffer) (r : (ErrorCode × Option Response) × Buffer)
    → IsValid b
    → build_from_buffer b ≡ ok r
    → (r.1 ≡ b) ⊎ ((r.0.0 ≡ no_error) × ((n : ℕ) × Holds (drop n (contents b)) r.1))
unfolding build_from_buffer
build_from_buffer-consumes b r v e =
    let (s, e1, r1) = >>=-inverse (parse b) _ r e in
    let made = ok-injective _ _ r1 in
    let buf : r.1 ≡ s.buf = sym (ap (λ (x : (ErrorCode × Option Response) × Buffer). x.1) made) in
    let code : r.0.0 ≡ s.code =
      sym (ap (λ (x : (ErrorCode × Option Response) × Buffer). x.0.0) made) in
    elim (parse-Consumed b s v e1) [
      | untouched same ↦ inl (buf ∙ same)
      | taken n done rest ↦ inr (code ∙ done, (n, rw buf rest))
    ]
