-- ===== src/Io/Connection/Outgoing.antt =====
-- hulatang/io/TCPConnection.cpp with reactor/UnixReactor.cpp: the bytes that a connection sends, through its send
-- buffer to the kernel, in the thread of its loop.
use hulatang_io.Base.{
  ℕ, ◌+◌, ◌≤◌, ◌≡◌, refl, sym, ap, ◌∙◌, List, [], ◌∷◌, ◌++◌, append_assoc, append-nil, arith, min,
  Bool, true, false, Option, some, Text, length, length-append, take, drop, take-append-drop,
  take-all, Outcome, ok, ◌>>=◌, Succeeds,
}
use hulatang_io.Buffer.{Buffer, max_size, readable_bytes, to_string_view}
use hulatang_io.Buffer.Valid.{IsValid, contents}
use hulatang_io.Buffer.Queue.{retrieve_lem, retrieve-bound}
use hulatang_io.Io.Channel.{Poller, Op, Event, ctl_mod, ctl_del}
use hulatang_io.Io.Reactor.{wrote, write_failed, eagain, handle_write}
use hulatang_io.Io.Connection.{Connection, send}
use hulatang_io.Io.Connection.Life.{Registered, send_within}

-- A connection with the poller of its loop, and what the kernel has taken from it, in order.
pub record Outgoing (K : Type 0) : Type 0 where
  pub conn : Connection
  pub poller : Poller K
  pub taken : Text

-- `send` is called, or the socket is writable: then the kernel takes as many bytes as this, or all where there are
-- fewer, or none.
pub data Step : Type 0 where
  send_call : Text → Step
  writable : ℕ → Step
  not_yet : Step

abbrev with_buffer : {K : Type 0} → Buffer → Text → Outgoing K → Outgoing K
with_buffer b taken s = record s { conn = record s.conn { send_buffer = b }; taken = taken }

module _ (K : Type 0) (ctl : Op → Event → K → Option K) (junk : ℕ → ℕ) where
  unfoldable pub step : Step → Outgoing K → Outcome (Outgoing K)
  step (send_call data') s = do
    r ← send K ctl junk data' (length data') s.conn s.poller
    ok (record s { conn = r.0; poller = r.1 })
  step (writable n) s = do
    let num = min n (readable_bytes s.conn.send_buffer)
    r ← handle_write (wrote num) false s.conn.send_buffer
    ok (with_buffer r.1 (s.taken ++ take num (to_string_view s.conn.send_buffer)) s)
  step not_yet s = do
    r ← handle_write (write_failed eagain) false s.conn.send_buffer
    ok (with_buffer r.1 s.taken s)

  unfoldable pub run : List Step → Outgoing K → Outcome (Outgoing K)
  run [] s = ok s
  run (t ∷ ts) s = do s' ← step t s; run ts s'

-- What is sent in these steps.
abbrev pub sent : List Step → Text
sent [] = []
sent (send_call data' ∷ ts) = data' ++ sent ts
sent (writable n ∷ ts) = sent ts
sent (not_yet ∷ ts) = sent ts

module _ (K : Type 0) (ctl : Op → Event → K → Option K) (registered : K → ℕ → Bool)
    (ctl_mod-registered : (e : Event) (k : K)
      → registered k e.fd ≡ true
      → (k' : K) × (ctl ctl_mod e k ≡ some k') × (registered k' e.fd ≡ true))
    (ctl_del-registered : (e : Event) (k : K)
      → registered k e.fd ≡ true
      → (k' : K) × (ctl ctl_del e k ≡ some k') × (registered k' e.fd ≡ false))
    (junk : ℕ → ℕ) where
  -- What the kernel has taken, and then what waits.
  abbrev pub stream : Outgoing K → Text
  stream s = s.taken ++ contents s.conn.send_buffer

  -- The connection can be sent on, and its write index has not left the bound.
  pub record CanSend (bound : ℕ) (s : Outgoing K) : Type 0 where
    pub valid : IsValid s.conn.send_buffer
    pub known :
        Registered K ctl registered ctl_mod-registered ctl_del-registered s.conn.channel s.poller
    pub large : 8 ≤ bound
    pub bounded : s.conn.send_buffer.writer_index ≤ bound

  send_call-stream :
      (data' : Text) (bound : ℕ) (s : Outgoing K)
      → CanSend bound s
      → bound + length data' ≤ max_size
      → Succeeds
          (step K ctl junk (send_call data') s)
          λ s'. (stream s' ≡ stream s ++ data') × CanSend (bound + length data') s'
  unfolding step
  send_call-stream data' bound s c fits =
      let r =
        send_within K ctl registered ctl_mod-registered ctl_del-registered junk data' (length data')
          s.conn s.poller c.valid (omega arith) (omega (arith, c.bounded)) c.known in
      (
        record s { conn = r.0.0; poller = r.0.1 },
        rw r.1 refl,
        (
          ap (λ t. s.taken ++ t)
                (r.2.0.same
                  ∙ ap (λ t. contents s.conn.send_buffer ++ t)
                      (take-all (length data') data' (omega arith)))
              ∙ sym (append_assoc s.taken (contents s.conn.send_buffer) data'),
          record {
            valid = r.2.0.valid;
            known = r.2.2;
            large = omega (arith, c.large);
            bounded = omega (arith, r.2.3, c.bounded);
          },
        ),
      )

  writable-stream :
      (n bound : ℕ) (s : Outgoing K)
      → CanSend bound s
      → Succeeds (step K ctl junk (writable n) s) λ s'. (stream s' ≡ stream s) × CanSend bound s'
  unfolding step handle_write
  writable-stream n bound s c =
      let b = s.conn.send_buffer in
      let num : ℕ = min n (readable_bytes b) in
      let r = (retrieve_lem num c.valid).0 (omega (arith, c.valid)) in
      (
        with_buffer r.0 (s.taken ++ take num (contents b)) s,
        rw r.1 refl,
        (
          ap (λ t. (s.taken ++ take num (contents b)) ++ t) r.2.same
              ∙ append_assoc s.taken (take num (contents b)) (drop num (contents b))
              ∙ ap (λ t. s.taken ++ t) (take-append-drop num (contents b)),
          record {
            valid = r.2.valid;
            known = c.known;
            large = c.large;
            bounded = retrieve-bound num bound b r.0 r.1 c.large c.bounded;
          },
        ),
      )

  not_yet-step : (s : Outgoing K) → step K ctl junk not_yet s ≡ ok s
  unfolding step handle_write
  not_yet-step s = refl

  -- Let the kernel change the registrations that it has. On a registered connection with a valid send buffer, in which
  -- the bytes that are sent have room, any sequence of sends and of writes, which take as much as the kernel likes,
  -- comes to its end, and what the kernel has taken, followed by what waits in the buffer, is what it was before
  -- followed by the bytes that were sent, each once and in order.
  pub run-stream :
      (ts : List Step) (bound : ℕ) (s : Outgoing K)
      → CanSend bound s
      → bound + length (sent ts) ≤ max_size
      → Succeeds (run K ctl junk ts s) λ s'. stream s' ≡ stream s ++ sent ts
  unfolding run
  run-stream [] bound s c fits = (s, refl, sym (append-nil (stream s)))
  run-stream (send_call data' ∷ ts) bound s c fits =
      let long = length-append data' (sent ts) in
      let r = send_call-stream data' bound s c (omega (arith, long)) in
      let rest = run-stream ts (bound + length data') r.0 r.2.1 (omega (arith, long)) in
      (
        rest.0,
        rw r.1 rest.1,
        rest.2 ∙ ap (λ t. t ++ sent ts) r.2.0 ∙ append_assoc (stream s) data' (sent ts),
      )
  run-stream (writable n ∷ ts) bound s c fits =
      let r = writable-stream n bound s c in
      let rest = run-stream ts bound r.0 r.2.1 fits in
      (rest.0, rw r.1 rest.1, rest.2 ∙ ap (λ t. t ++ sent ts) r.2.0)
  run-stream (not_yet ∷ ts) bound s c fits =
      let rest = run-stream ts bound s c fits in (rest.0, rw (not_yet-step s) rest.1, rest.2)
