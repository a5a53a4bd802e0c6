-- ===== src/Io/WsAccept/Pending.antt =====
-- Where the sockets of the pending accepts go.
use hulatang_io.Base.{
  ℕ, zero, suc, ◌+◌, ◌-◌, ◌<◌, ◌≡◌, refl, sym, ap, subst, ◌∙◌, List, [], ◌∷◌, ◌++◌, Bool, true,
  false, ◌==◌, if◌then◌else◌, some, ok, length, length-append, Succeeds, arith,
}
use hulatang_io.Io.Pool.{Pool, get_next_loop-loops}
use hulatang_io.Io.WsAccept.{
  Accept, WsAcceptor, Attempt, no_socket, blocking, taken, refused, post_accept, hand_over,
  handle_accepted, take_out, complete_accepts,
}

-- How often a number is in a list.
abbrev pub tally : ℕ → List ℕ → ℕ
tally x [] = 0
tally x (y ∷ ys) = (if y == x then 1 else 0) + tally x ys

abbrev pub waiting_sockets : List Accept → List ℕ
waiting_sockets [] = []
waiting_sockets (op ∷ ops) = op.sockfd ∷ waiting_sockets ops

abbrev pub handed_sockets : List (ℕ × ℕ) → List ℕ
handed_sockets [] = []
handed_sockets ((loop, sockfd) ∷ hs) = sockfd ∷ handed_sockets hs

-- The socket that is made for the next accept.
abbrev pub made_by : Attempt → List ℕ
made_by no_socket = []
made_by (blocking sockfd) = sockfd ∷ []
made_by (taken sockfd) = sockfd ∷ []
made_by (refused sockfd err) = sockfd ∷ []

abbrev pub made : List (ℕ × Attempt) → List ℕ
made [] = []
made ((i, t) ∷ ts) = made_by t ++ made ts

-- How often a socket is in a pending accept, was handed over or is lost.
abbrev pub places : ℕ → WsAcceptor → ℕ
places x a = tally x (waiting_sockets a.over) + tally x (handed_sockets a.handed) + tally x a.lost

abbrev pub is_made : Attempt → Bool
is_made no_socket = false
is_made (blocking sockfd) = true
is_made (taken sockfd) = true
is_made (refused sockfd err) = true

-- How many accepts are pending once one has completed.
abbrev pub pending_after : Attempt → ℕ → ℕ
pending_after no_socket n = n - 1
pending_after (blocking sockfd) n = n - 1
pending_after (taken sockfd) n = n
pending_after (refused sockfd err) n = if err == 997 then n else n - 1

-- Each completion is that of an accept which is pending then, and the system makes a socket for the next one.
pub data Going : ℕ → List (ℕ × Attempt) → Type 0 where
  no_more : {n : ℕ} → Going n []
  one_more :
      {n i : ℕ} {t : Attempt} {ts : List (ℕ × Attempt)}
      → i < n
      → is_made t ≡ true
      → Going (pending_after t n) ts
      → Going n ((i, t) ∷ ts)

tally-append : (x : ℕ) (xs ys : List ℕ) → tally x (xs ++ ys) ≡ tally x xs + tally x ys
tally-append x [] ys = omega arith
tally-append x (y ∷ xs) ys = omega (arith, tally-append x xs ys)

waiting-append :
    (os ps : List Accept) → waiting_sockets (os ++ ps) ≡ waiting_sockets os ++ waiting_sockets ps
waiting-append [] ps = refl
waiting-append (o ∷ os) ps = ap (λ t. o.sockfd ∷ t) (waiting-append os ps)

handed-append :
    (hs ks : List (ℕ × ℕ)) → handed_sockets (hs ++ ks) ≡ handed_sockets hs ++ handed_sockets ks
handed-append [] ks = refl
handed-append ((l, s) ∷ hs) ks = ap (λ t. s ∷ t) (handed-append hs ks)

tally-waiting :
    (x i s : ℕ) (os : List Accept)
    → tally x (waiting_sockets (os ++ record { address = i; sockfd = s } ∷ []))
      ≡ tally x (waiting_sockets os) + tally x (s ∷ [])
tally-waiting x i s os =
    ap (tally x) (waiting-append os (record { address = i; sockfd = s } ∷ []))
    ∙ tally-append x (waiting_sockets os) (s ∷ [])

tally-handed :
    (x l s : ℕ) (hs : List (ℕ × ℕ))
    → tally x (handed_sockets (hs ++ (l, s) ∷ [])) ≡ tally x (handed_sockets hs) + tally x (s ∷ [])
tally-handed x l s hs =
    ap (tally x) (handed-append hs ((l, s) ∷ [])) ∙ tally-append x (handed_sockets hs) (s ∷ [])

-- What an accept that is posted again adds.
abbrev Reposted : ℕ → Attempt → WsAcceptor → WsAcceptor → Type 0
Reposted x t a a' =
    (places x a' ≡ places x a + tally x (made_by t))
    × (length a'.over ≡ pending_after t (suc (length a.over)))
    × (length a'.over + length a'.lost ≡ suc (length a.over + length a.lost))
    × (a'.handed ≡ a.handed)
    × (a'.pool ≡ a.pool)

posted_one :
    (x i s : ℕ) (a : WsAcceptor)
    → Reposted x (taken s) a (record a { over = a.over ++ record { address = i; sockfd = s } ∷ [] })
posted_one x i s a =
    let more = length-append a.over (record { address = i; sockfd = s } ∷ []) in
    (
      omega (arith, tally-waiting x i s a.over),
      omega (arith, more),
      omega (arith, more),
      refl,
      refl,
    )

lost_one :
    (x s : ℕ) (errors : List ℕ) (a : WsAcceptor)
    → Reposted x (blocking s) a (record a { errors = errors; lost = a.lost ++ s ∷ [] })
lost_one x s errors a =
    let more = length-append a.lost (s ∷ []) in
    (omega (arith, tally-append x a.lost (s ∷ [])), omega arith, omega (arith, more), refl, refl)

refused_one :
    (x i s err : ℕ) (a : WsAcceptor) (b : Bool)
    → (err == 997) ≡ b
    → Succeeds (post_accept (refused s err) i a) (Reposted x (refused s err) a)
unfolding post_accept
refused_one x i s err a true e = (
  record a { over = a.over ++ record { address = i; sockfd = s } ∷ [] },
  rw e refl,
  rw e (posted_one x i s a),
)
refused_one x i s err a false e = (
  record a { errors = a.errors ++ err ∷ []; lost = a.lost ++ s ∷ [] },
  rw e refl,
  rw e (lost_one x s (a.errors ++ err ∷ []) a),
)

post_accept-places :
    (x : ℕ) (t : Attempt) (i : ℕ) (a : WsAcceptor)
    → is_made t ≡ true
    → Succeeds (post_accept t i a) (Reposted x t a)
unfolding post_accept
post_accept-places x no_socket i a e = absurd cc
post_accept-places x (blocking s) i a e =
    (record a { lost = a.lost ++ s ∷ [] }, refl, lost_one x s a.errors a)
post_accept-places x (taken s) i a e = (
  record a { over = a.over ++ record { address = i; sockfd = s } ∷ [] },
  refl,
  posted_one x i s a,
)
post_accept-places x (refused s err) i a e = refused_one x i s err a (err == 997) refl

hand_over_lem :
    (x s : ℕ) (a : WsAcceptor)
    → 0 < length a.pool.loops
    → Succeeds (hand_over s a) λ a'.
      (places x a' ≡ places x a + tally x (s ∷ []))
      × (length a'.handed ≡ suc (length a.handed))
      × (a'.over ≡ a.over)
      × (a'.lost ≡ a.lost)
      × (0 < length a'.pool.loops)
unfolding hand_over
hand_over_lem x s a h =
    let r = get_next_loop-loops a.pool h in
    (
      record a { pool = r.0.1; handed = a.handed ++ (r.0.0, s) ∷ [] },
      rw r.1 refl,
      (
        omega (arith, tally-handed x r.0.0 s a.handed),
        omega (arith, length-append a.handed ((r.0.0, s) ∷ [])),
        refl,
        refl,
        omega (arith, ap (λ ls. length ls) r.2, h),
      ),
    )

-- What is taken out is one of the pending operations.
take_out_lem :
    (x i : ℕ) (os : List Accept)
    → i < length os
    → (r : Accept × List Accept) × (take_out i os ≡ some r)
      × (length os ≡ suc (length r.1))
      × (tally x (waiting_sockets os) ≡ tally x (r.0.sockfd ∷ []) + tally x (waiting_sockets r.1))
unfolding take_out
take_out_lem x i [] h = absurd (omega arith)
take_out_lem x zero (o ∷ os) h = ((o, os), refl, refl, omega arith)
take_out_lem x (suc i) (o ∷ os) h =
    let (r, e, n, same) = take_out_lem x i os (omega arith) in
    ((r.0, o ∷ r.1), rw e refl, omega (arith, n), omega (arith, same))

-- A completion hands its socket over, and posts its operation again.
abbrev Completed : ℕ → Attempt → Accept → WsAcceptor → WsAcceptor → Type 0
Completed x t op a a' =
    (places x a' ≡ places x a + tally x (op.sockfd ∷ []) + tally x (made_by t))
    × (length a'.over ≡ pending_after t (suc (length a.over)))
    × (length a'.over + length a'.lost ≡ suc (length a.over + length a.lost))
    × (length a'.handed ≡ suc (length a.handed))
    × (0 < length a'.pool.loops)

handle_accepted-places :
    (x : ℕ) (t : Attempt) (op : Accept) (a : WsAcceptor)
    → is_made t ≡ true
    → 0 < length a.pool.loops
    → Succeeds (handle_accepted t op a) (Completed x t op a)
unfolding handle_accepted
handle_accepted-places x t op a e h =
    let r = hand_over_lem x op.sockfd a h in
    let q = post_accept-places x t op.address r.0 e in
    let over = ap (λ os. length os) r.2.2 in
    let lost = ap (λ ls. length ls) r.2.3 in
    (
      q.0,
      rw r.1 q.1,
      (
        omega (arith, q.2.0, r.2.0),
        q.2.1 ∙ ap (λ os. pending_after t (suc (length os))) r.2.2,
        omega (arith, q.2.2, over, lost),
        ap (λ hs. length hs) q.2.3 ∙ r.2.1,
        subst (λ (p : Pool). 0 < length p.loops) (sym q.2.4) r.2.4,
      ),
    )

-- The state behind these completions.
abbrev pub Kept : ℕ → List (ℕ × Attempt) → WsAcceptor → WsAcceptor → Type 0
Kept x ts a a' =
    (places x a' ≡ places x a + tally x (made ts))
    × (length a'.over + length a'.lost ≡ length a.over + length a.lost)
    × (length a'.handed ≡ length a.handed + length ts)

complete_first :
    (i : ℕ) (t : Attempt) (ts : List (ℕ × Attempt)) (a b c : WsAcceptor) (r : Accept × List Accept)
    → take_out i a.over ≡ some r
    → handle_accepted t r.0 (record a { over = r.1 }) ≡ ok b
    → complete_accepts ts b ≡ ok c
    → complete_accepts ((i, t) ∷ ts) a ≡ ok c
unfolding complete_accepts
complete_first i t ts a b c r e e1 e2 = rw (complete_accepts, e) (rw e1 e2)

-- On a listening socket whose pool has loops, with completions that are each of any accept which is pending then, and
-- for which the system makes a next socket, whatever becomes of that: each completion hands over one connection, and
-- each socket, those that waited and those that are made, is as often in a pending accept, handed over or lost as it
-- was made; one accept is pending less for each socket that is lost.
pub complete_accepts-places :
    (x : ℕ) (ts : List (ℕ × Attempt)) (a : WsAcceptor)
    → Going (length a.over) ts
    → 0 < length a.pool.loops
    → Succeeds (complete_accepts ts a) (Kept x ts a)
unfolding complete_accepts
complete_accepts-places x [] a g h = (a, refl, (omega arith, refl, omega arith))
complete_accepts-places x ((i, t) ∷ ts) a (one_more inside fine more) h =
    let (o, e, n, same) = take_out_lem x i a.over inside in
    let r = handle_accepted-places x t o.0 (record a { over = o.1 }) fine h in
    let rest =
      complete_accepts-places x ts r.0
        (subst (λ k. Going k ts) (ap (pending_after t) n ∙ sym r.2.1) more) r.2.4 in
    let all = tally-append x (made_by t) (made ts) in
    (
      rest.0,
      complete_first i t ts a r.0 rest.0 o e r.1 rest.1,
      (
        omega (arith, rest.2.0, r.2.0, same, all),
        omega (arith, rest.2.1, r.2.2, n),
        omega (arith, rest.2.2, r.2.3),
      ),
    )
