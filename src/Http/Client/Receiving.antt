-- ===== src/Http/Client/Receiving.antt =====
-- What a message of the connection does to the read buffer and to the caller.
use hulatang_io.Base.{
  ℕ, ◌+◌, ◌≤◌, ◌≡◌, ◌≢◌, ap, subst, ◌⊎◌, inl, inr, List, [], ◌∷◌, ◌++◌, Option, none, some, length,
  drop, take-all, Text, ok, >>=-inverse, ok-injective, arith,
}
use hulatang_io.Buffer.{Buffer, max_size}
use hulatang_io.Buffer.Valid.{IsValid, contents}
use hulatang_io.Buffer.Queue.{Holds, append_lem}
use hulatang_io.Http.Response.{ErrorCode, no_error, Response, build_from_buffer}
use hulatang_io.Http.Response.Consumption.{build_from_buffer-consumes}
use hulatang_io.Http.Client.{HttpClient, answers, on_message}

-- A response is made exactly where there is no error.
abbrev Made : (ErrorCode × Option Response) × Buffer → Type 0
Made r =
    ((r.0.0 ≡ no_error) × ((x : Response) × (r.0.1 ≡ some x)))
    ⊎ ((r.0.0 ≢ no_error) × (r.0.1 ≡ none))

build_from_buffer-Made :
    (b : Buffer) (r : (ErrorCode × Option Response) × Buffer) → build_from_buffer b ≡ ok r → Made r
unfolding build_from_buffer
build_from_buffer-Made b r e = ground arith

module _ {A : Type 0} where
  -- What has come of the message: it waits in the buffer, or one response was answered.
  abbrev pub Received : Text → HttpClient A × List Response → Type 0
  Received all r =
      ((r.1 ≡ []) × Holds all r.0.read_buffer)
      ⊎ ((x : Response) × (n : ℕ) × (r.1 ≡ x ∷ []) × Holds (drop n all) r.0.read_buffer)

  received :
      (c : HttpClient A) (b : Buffer) (all : Text) (q : (ErrorCode × Option Response) × Buffer)
      → Holds all b
      → build_from_buffer b ≡ ok q
      → Received all (record c { read_buffer = q.1 }, answers q.0.1)
  unfolding drop
  received c b all q h e = elim (build_from_buffer-Made b q e) [
    | inl (fine, (x, made)) ↦ elim (build_from_buffer-consumes b q h.valid e) [
      | inl kept ↦ inr (x, 0, ap answers made, rw kept h)
      | inr (done, (n, rest)) ↦
          inr (x, n, ap answers made, subst (λ t. Holds (drop n t) q.1) h.same rest)
    ]
    | inr (failed, nothing) ↦ elim (build_from_buffer-consumes b q h.valid e) [
      | inl kept ↦ inl (ap answers nothing, rw kept h)
      | inr (done, _) ↦ absurd (failed done)
    ]
  ]

  module _ (junk : ℕ → ℕ) where
    -- A message on a client with a valid read buffer, where a vector of the size can exist, is put behind
    -- the bytes that wait there. Where `onMessage` returns, either the request's callback is not called and all
    -- these bytes stay in the buffer for the next message, or it is called once, and what stays is those bytes
    -- without a first part. The buffer is valid again.
    pub on_message_lem :
        (buf : Text) (c : HttpClient A) (r : HttpClient A × List Response)
        → IsValid c.read_buffer
        → c.read_buffer.writer_index + length buf ≤ max_size
        → on_message junk buf c ≡ ok r
        → Received (contents c.read_buffer ++ buf) r
    unfolding on_message
    on_message_lem buf c r v fits e =
        let added = append_lem junk buf (length buf) v (omega arith) fits in
        let (q, e1, r1) = >>=-inverse (build_from_buffer added.0) _ r (rw added.1 at e) in
        subst (Received (contents c.read_buffer ++ buf)) (ok-injective _ _ r1) (
          received c added.0 (contents c.read_buffer ++ buf) q
            (subst (λ t. Holds (contents c.read_buffer ++ t) added.0)
              (take-all (length buf) buf (omega arith)) added.2)
            e1)
