-- ===== src/Io/Connector/Backoff.antt =====
-- Connector: the delays between attempts that fail.
use native.Mathlib.Nat.{pow-suc}
use hulatang_io.Base.{
  ℕ, zero, suc, ◌*◌, ◌^◌, ◌≡◌, refl, sym, ap, ◌∙◌, min, List, [], ◌∷◌, ◌++◌, append_assoc,
  append-nil, Bool, true, false, length, arith, Succeeds, Bool-cases, inl, inr,
}
use hulatang_io.Io.Connector.{
  disconnected, connecting, Errc, other_error, need_to_close, init_retry_delay, max_retry_delay,
  Request, channel_added, channel_cancelled, start_after, new_connection, Connector, new_connector,
  request, retry, handle_error, refused, pending, create_connect, opened, connect, is_disconnected,
  start_in_loop, handle_write, Failure, at_once, later, attempt, attempts,
}

-- the delay before the attempt after the failure `i`
abbrev pub delay : ℕ → ℕ
delay i = min (init_retry_delay * 2 ^ i) max_retry_delay

delay-suc : (i : ℕ) → delay (suc i) ≡ min (delay i * 2) max_retry_delay
delay-suc i = omega (arith, pow-suc 2 i)

-- the delays that were asked for
unfoldable pub delays : List Request → List ℕ
delays [] = []
delays (start_after d ∷ rs) = d ∷ delays rs
delays (r ∷ rs) = delays rs

delays-append : (rs ss : List Request) → delays (rs ++ ss) ≡ delays rs ++ delays ss
unfolding delays
delays-append [] ss = refl
delays-append (start_after d ∷ rs) ss = ap (λ t. d ∷ t) (delays-append rs ss)
delays-append (channel_added ∷ rs) ss = delays-append rs ss
delays-append (channel_cancelled ∷ rs) ss = delays-append rs ss
delays-append (new_connection ∷ rs) ss = delays-append rs ss

-- `n` delays, from that after the failure `i` on
abbrev pub backoff : ℕ → ℕ → List ℕ
backoff i zero = []
backoff i (suc n) = delay i ∷ backoff (suc i) n

-- A failure at `c` asks for the present delay and makes the next one longer.
abbrev Retried : Connector → Connector → Type 0
Retried c c' =
    (c'.state ≡ disconnected)
    × (c'.retry_delay ≡ min (c.retry_delay * 2) max_retry_delay)
    × (delays c'.requests ≡ delays c.requests ++ c.retry_delay ∷ [])

-- A request that is no delay.
pub request_other :
    (rs : List Request) (r : Request) → delays (r ∷ []) ≡ [] → delays (rs ++ r ∷ []) ≡ delays rs
request_other rs r h =
    delays-append rs (r ∷ []) ∙ ap (λ t. delays rs ++ t) h ∙ append-nil (delays rs)

retry-Retried : (c : Connector) → Retried c (retry c)
unfolding retry delays
retry-Retried c = (refl, ground arith, delays-append c.requests (start_after c.retry_delay ∷ []))

handle_error-Retried : (e : Errc) (c : Connector) → Retried c (handle_error e c)
unfolding handle_error delays
handle_error-Retried e c = elim (Bool-cases (need_to_close e)) [
  | inl closes ↦
      let closed : Connector = record (request channel_cancelled c) { has_channel = false } in
      let r = retry-Retried closed in
      rw closes (
        r.0,
        r.1,
        r.2 ∙ ap (λ t. t ++ c.retry_delay ∷ []) (request_other c.requests channel_cancelled refl),
      )
  | inr stays ↦ rw stays (retry-Retried c)
]

opened-Retried : (b : Bool) (e : Errc) (c : Connector) → Retried c (handle_error e (opened b c))
unfolding delays
opened-Retried true e c = handle_error-Retried e c
opened-Retried false e c =
    let made : Connector = record (request channel_added c) { has_channel = true } in
    let r = handle_error-Retried e made in
    (
      r.0,
      r.1,
      r.2 ∙ ap (λ t. t ++ c.retry_delay ∷ []) (request_other c.requests channel_added refl),
    )

connect-Retried : (e : Errc) (c : Connector) → Retried c (connect (refused e) c)
unfolding connect create_connect
connect-Retried e c = opened-Retried c.has_channel e c

later-Retried :
    (b : Bool) (n : ℕ) (c : Connector)
    → Retried c
        (handle_write (suc n) (record (opened b c) { has_model = true; state = connecting }))
unfolding handle_write delays
later-Retried true n c =
    handle_error-Retried other_error (record c { has_model = true; state = connecting })
later-Retried false n c =
    let made : Connector = record (request channel_added c) {
      has_channel = true;
      has_model = true;
      state = connecting;
    } in
    let r = handle_error-Retried other_error made in
    (
      r.0,
      r.1,
      r.2 ∙ ap (λ t. t ++ c.retry_delay ∷ []) (request_other c.requests channel_added refl),
    )

attempt-Retried :
    (f : Failure) (c : Connector) → c.state ≡ disconnected → Succeeds (attempt f c) (Retried c)
unfolding attempt start_in_loop
attempt-Retried (at_once e) c h =
    let ready : is_disconnected c.state ≡ true = ap is_disconnected h in
    (connect (refused e) c, rw ready refl, connect-Retried e c)
attempt-Retried (later n) c h =
    let ready : is_disconnected c.state ≡ true = ap is_disconnected h in
    (
      handle_write (suc n) (connect pending c),
      rw ready refl,
      unfold connect create_connect in later-Retried c.has_channel n c,
    )

attempts_from :
    (fs : List Failure) (i : ℕ) (c : Connector)
    → c.state ≡ disconnected
    → c.retry_delay ≡ delay i
    → Succeeds (attempts fs c) λ c'.
      (c'.state ≡ disconnected) × (delays c'.requests ≡ delays c.requests ++ backoff i (length fs))
unfolding attempts
attempts_from [] i c h d = (c, refl, (h, sym (append-nil (delays c.requests))))
attempts_from (f ∷ fs) i c h d =
    let first = attempt-Retried f c h in
    let r = first.2 in
    let rest = attempts_from fs (suc i) first.0 r.0 (omega (arith, r.1, d, delay-suc i)) in
    (
      rest.0,
      rw first.1 rest.1,
      (
        rest.2.0,
        rest.2.1
            ∙ ap (λ t. t ++ backoff (suc i) (length fs))
                (r.2 ∙ ap (λ k. delays c.requests ++ k ∷ []) d)
            ∙ append_assoc (delays c.requests) (delay i ∷ []) (backoff (suc i) (length fs)),
      ),
    )

-- However its attempts fail, at once or later, the connector is ready for the next one after each,
-- and waits 500 milliseconds after the first failure, then twice as long each time, and never more
-- than 30 seconds.
pub attempts-backoff :
    (fs : List Failure)
    → Succeeds
        (attempts fs new_connector)
        λ c. (c.state ≡ disconnected) × (delays c.requests ≡ backoff 0 (length fs))
unfolding new_connector delays
attempts-backoff fs = attempts_from fs 0 new_connector refl (omega arith)
