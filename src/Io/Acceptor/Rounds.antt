-- ===== src/Io/Acceptor/Rounds.antt =====
-- Where the connections of an acceptor go, and what a failure of `accept` does.
use hulatang_io.Base.{
  ℕ, ◌<◌, ◌≡◌, ◌≢◌, refl, sym, ap, ◌∙◌, List, [], ◌∷◌, ◌++◌, append_assoc, append-nil, true, false,
  eq→==, ne→==, length, Option, none, some, ok, Succeeds, >>=-inverse, ok-injective,
}
use hulatang_io.File.{
  Answer, returned, failed, descriptor, File, release, file_of, close, destroy, swap_file,
  listen_socket, is_misuse,
}
use hulatang_io.Io.Channel.{Channel, Poller, Op, Event}
use hulatang_io.Io.Pool.{Pool, get_next_loop, next_loops, next_loops_lem, round, somes}
use hulatang_io.Io.Acceptor.{
  Acceptor, emfile, is_quiet, socket_accept, accept_in_loop, on_accept_error, handle_accept,
  accept_each, acceptor_listen, dropped,
}

abbrev pub loops_of : List (ℕ × ℕ) → List ℕ
loops_of [] = []
loops_of ((loop, fd) ∷ hs) = loop ∷ loops_of hs

abbrev pub fds_of : List (ℕ × ℕ) → List ℕ
fds_of [] = []
fds_of ((loop, fd) ∷ hs) = fd ∷ fds_of hs

-- The loops are those that the pool hands out.
accept_each_from :
    (ns : List ℕ) (a : Acceptor) (r : List ℕ × Pool)
    → next_loops (length ns) a.pool ≡ ok r
    → Succeeds (accept_each ns a) λ a'.
      (hs : List (ℕ × ℕ)) × (a'.handed ≡ a.handed ++ hs)
      × (loops_of hs ≡ r.0)
      × (fds_of hs ≡ ns)
      × (a'.idle ≡ a.idle)
unfolding accept_each next_loops
accept_each_from [] a r e = (
  a,
  refl,
  ([], sym (append-nil a.handed), ap (λ (x : List ℕ × Pool). x.0) (ok-injective _ _ e), refl, refl),
)
accept_each_from (n ∷ ns) a r e =
    let (q, e1, r1) = >>=-inverse (get_next_loop a.pool) _ r e in
    let (rs, e2, r2) = >>=-inverse (next_loops (length ns) q.1) _ r r1 in
    let a1 : Acceptor = record a {
      pool = q.1;
      handed = a.handed ++ (q.0, n) ∷ [];
      held = n ∷ a.held;
    } in
    let step : handle_accept 0 (λ held. returned n) (λ held. returned n) a ≡ ok a1 =
      unfold handle_accept socket_accept accept_in_loop file_of in rw e1 refl in
    let (last, e3, (hs, p, ls, fs, i)) = accept_each_from ns a1 rs e2 in
    (
      last,
      rw step e3,
      (
        (q.0, n) ∷ hs,
        p ∙ append_assoc a.handed ((q.0, n) ∷ []) hs,
        ap (λ t. q.0 ∷ t) ls ∙ ap (λ (x : List ℕ × Pool). x.0) (ok-injective _ _ r2),
        ap (λ t. n ∷ t) fs,
        i,
      ),
    )

-- Connections that are accepted one after the other, on a new acceptor whose pool has loops, are handed out in
-- order, each descriptor once, and in turn to the loops that follow the pool's last one, going round.
pub accept_each_lem :
    (ns : List ℕ) (a : Acceptor)
    → 0 < length a.pool.loops
    → a.handed ≡ []
    → Succeeds (accept_each ns a) λ a'.
      (somes (loops_of a'.handed) ≡ round a.pool.loops a.pool.next (length ns))
      × (fds_of a'.handed ≡ ns)
accept_each_lem ns a h none_yet =
    let turns = next_loops_lem (length ns) a.pool h in
    let r = accept_each_from ns a turns.0 turns.1 in
    let all = r.2.1 ∙ ap (λ t. t ++ r.2.0) none_yet in
    (r.0, r.1, (ap (λ t. somes (loops_of t)) all ∙ ap somes r.2.2 ∙ turns.2, ap fds_of all ∙ r.2.3))

close_first :
    (i : ℕ) (others : List ℕ)
    → close (record { impl = some (descriptor i); held = i ∷ others })
      ≡ ok (record { impl = none; held = others })
unfolding close release
close_first i others = rw (eq→== i i refl) refl

dropped_same : (n : ℕ) (held : List ℕ) → dropped (returned n) held ≡ held
unfolding release
dropped_same n held = rw (eq→== n n refl) refl

-- Where a process that holds the spare descriptor `i` and the others is given no descriptor, and without the spare one
-- is given `n` by `::accept` and `m` by `::open`: the connection that waits is accepted as `n` and closed in its place,
-- nothing is handed out, and the process holds the same descriptors as before, with the spare one exchanged for the
-- new one.
pub handle_accept-exhausted :
    (later i m n : ℕ) (accept reopen : List ℕ → Answer) (a : Acceptor) (others : List ℕ)
    → a.idle ≡ some (descriptor i)
    → a.held ≡ i ∷ others
    → accept (i ∷ others) ≡ failed emfile
    → accept others ≡ returned n
    → reopen others ≡ returned m
    → Succeeds (handle_accept later accept reopen a) λ a'.
      (a'.shed ≡ a.shed ++ n ∷ [])
      × (a'.idle ≡ some (descriptor m))
      × (a'.held ≡ m ∷ others)
      × (a'.handed ≡ a.handed)
      × (a'.pool ≡ a.pool)
unfolding handle_accept socket_accept on_accept_error swap_file file_of destroy
handle_accept-exhausted later i m n accept reopen a others e h full free again =
    let freed : close (record { impl = some (descriptor i); held = i ∷ others })
        ≡ ok (record { impl = none; held = others }) =
      close_first i others in
    (
      record a { idle = some (descriptor m); held = m ∷ others; shed = a.shed ++ n ∷ [] },
      rw (h, full, e, freed, free, dropped_same n others, again) refl,
      (refl, refl, refl, refl, refl),
    )

-- Where there is no connection now, or none for want of descriptors in the whole system, nothing changes.
handle_accept-quiet :
    (later errno : ℕ) (accept reopen : List ℕ → Answer) (a : Acceptor)
    → accept a.held ≡ failed errno
    → is_quiet errno ≡ true
    → errno ≢ emfile
    → handle_accept later accept reopen a ≡ ok a
unfolding handle_accept socket_accept on_accept_error
handle_accept-quiet later errno accept reopen a none_now quiet ne =
    rw (none_now, quiet, ne→== errno emfile ne) refl

-- A failure of `::listen` that is no misuse of the descriptor, such as a port that is in use, goes unnoticed:
-- `listen` does what it does where the call succeeds.
pub acceptor_listen-failed :
    (K : Type 0) (ctl : Op → Event → K → Option K) (errno : ℕ) (f : File) (c : Channel)
    (p : Poller K)
    → is_misuse errno ≡ false
    → acceptor_listen K ctl (failed errno) f c p ≡ acceptor_listen K ctl (returned 0) f c p
unfolding acceptor_listen listen_socket
acceptor_listen-failed K ctl errno f c p ordinary = rw ordinary refl
