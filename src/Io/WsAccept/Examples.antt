-- ===== src/Io/WsAccept/Examples.antt =====
-- Pending accepts on a pool with two loops.
use hulatang_io.Base.{ℕ, List, ◌≡◌, refl, [], ◌∷◌, arith, Succeeds}
use hulatang_io.Io.Status.{running}
use hulatang_io.Io.Pool.{get_next_loop}
use hulatang_io.Io.WsAccept.{
  WsAcceptor, Attempt, take_out, taken, refused, post_accept, handle_accepted, hand_over,
  complete_accepts,
}
use hulatang_io.Io.WsAccept.Pending.{Kept, no_more, one_more, complete_accepts-places}

abbrev waiting : WsAcceptor
waiting = record {
  pool = record {
    loops = 100 ∷ 101 ∷ [];
    threads = 101 ∷ [];
    base_loop = 100;
    num_threads = 2;
    next = 0;
    status = running;
  };
  over = record { address = 1; sockfd = 11 } ∷ record { address = 2; sockfd = 12 } ∷ [];
  handed = [];
  errors = [];
  lost = [];
}

-- An accept that the system refuses is not posted again, and its socket is lost.
complete_accepts-refused :
    Succeeds
      (complete_accepts ((0, refused 13 10038) ∷ (0, refused 14 10038) ∷ []) waiting)
      λ a'. (a'.over ≡ []) × (a'.lost ≡ 13 ∷ 14 ∷ [])
unfolding complete_accepts take_out handle_accepted hand_over post_accept get_next_loop
complete_accepts-refused = (_, refl, (refl, refl))

-- The second accept completes first.
abbrev completions : List (ℕ × Attempt)
completions = (1, taken 13) ∷ (0, refused 14 997) ∷ (1, refused 15 10038) ∷ []

complete_accepts-places_example :
    Succeeds (complete_accepts completions waiting) (Kept 13 completions waiting)
complete_accepts-places_example =
    complete_accepts-places 13 completions waiting
      (one_more (omega arith) refl
        (one_more (omega arith) refl (one_more (omega arith) refl no_more)))
      (omega arith)
