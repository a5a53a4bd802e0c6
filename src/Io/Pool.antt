-- ===== src/Io/Pool.antt =====
-- hulatang/io/EventLoopThreadPool.cpp: the loops of the threads, and the choice among them. A loop
-- is the number of its thread.
pub mod Stopping
use native.Mathlib.Nat.{mod-lt}
use hulatang_io.Io.Status.{Status, null, running}
use hulatang_io.Base.{
  ℕ, zero, suc, ◌+◌, ◌-◌, ◌%◌, ◌<◌, ◌≡◌, refl, sym, ap, List, [], ◌∷◌, ◌++◌, Option, none, some,
  length, get_elem?, arith, Outcome, ok, undefined, assert, require, ◌>>=◌, ◌>>◌, ltb, lt→ltb,
  Succeeds, ap₂,
}

pub record Pool : Type 0 where
  pub loops : List ℕ
  pub threads : List ℕ
  pub base_loop : ℕ
  pub num_threads : ℕ
  pub next : ℕ
  pub status : Status

unfoldable pub new_pool : ℕ → Pool
new_pool base = record {
  loops = [];
  threads = [];
  base_loop = base;
  num_threads = 1;
  next = 0;
  status = null;
}

unfoldable pub set_thread_num : ℕ → Pool → Pool
set_thread_num n p = record p { num_threads = n }

-- The loops that `n` new threads start, `start_loop i` being that of the thread `i`.
unfoldable pub started_loops : (ℕ → ℕ) → ℕ → ℕ → List ℕ
started_loops start_loop i zero = []
started_loops start_loop i (suc n) = start_loop i ∷ started_loops start_loop (suc i) n

unfoldable pub start : (ℕ → ℕ) → Pool → Outcome Pool
start start_loop p = do
  assert (ltb 0 p.num_threads)
  let new_loops = started_loops start_loop 1 (p.num_threads - 1)
  ok (record p {
    loops = p.loops ++ p.base_loop ∷ new_loops;
    threads = new_loops;
    status = running;
  })

abbrev loop_at : ℕ → List ℕ → Outcome ℕ
loop_at i loops = elim (get_elem? loops i) [ none ↦ undefined | some l ↦ ok l ]

unfoldable pub get_next_loop : Pool → Outcome (ℕ × Pool)
get_next_loop p = do
  require (ltb 0 (length p.loops))
  let next = (p.next + 1) % length p.loops
  l ← loop_at next p.loops
  ok (l, record p { next = next })

unfoldable pub get_loop_for_hash : ℕ → Pool → Outcome ℕ
get_loop_for_hash hash p = do
  require (ltb 0 (length p.loops))
  loop_at (hash % length p.loops) p.loops

-- The loops of `n` calls of `getNextLoop`, in order.
unfoldable pub next_loops : ℕ → Pool → Outcome (List ℕ × Pool)
next_loops zero p = ok ([], p)
next_loops (suc n) p = do r ← get_next_loop p; rs ← next_loops n r.1; ok (r.0 ∷ rs.0, rs.1)

-- The loops from index `i` on, going round.
abbrev pub round : List ℕ → ℕ → ℕ → List (Option ℕ)
round loops i zero = []
round loops i (suc n) =
    get_elem? loops ((i + 1) % length loops) ∷ round loops ((i + 1) % length loops) n

abbrev pub somes : List ℕ → List (Option ℕ)
somes [] = []
somes (x ∷ xs) = some x ∷ somes xs

get_elem?-some : (xs : List ℕ) (i : ℕ) → i < length xs → (x : ℕ) × (get_elem? xs i ≡ some x)
get_elem?-some [] i h = absurd (omega arith)
get_elem?-some (x ∷ xs) zero h = (x, refl)
get_elem?-some (x ∷ xs) (suc i) h = get_elem?-some xs i (omega arith)

started_loops-length : (start_loop : ℕ → ℕ) (i n : ℕ) → length (started_loops start_loop i n) ≡ n
unfolding started_loops
started_loops-length start_loop i zero = refl
started_loops-length start_loop i (suc n) = ap suc (started_loops-length start_loop (suc i) n)

-- Starting a pool whose number of threads is positive gives as many loops as threads, the base loop
-- first.
pub start-length :
    (start_loop : ℕ → ℕ) (base n : ℕ)
    → 0 < n
    → Succeeds
        (start start_loop (set_thread_num n (new_pool base)))
        λ p. (length p.loops ≡ n) × (get_elem? p.loops 0 ≡ some base) × (p.status ≡ running)
unfolding start set_thread_num new_pool
start-length start_loop base n h =
    let new_loops = started_loops start_loop 1 (n - 1) in
    (
      record {
        loops = base ∷ new_loops;
        threads = new_loops;
        base_loop = base;
        num_threads = n;
        next = 0;
        status = running;
      },
      rw (lt→ltb 0 n h) refl,
      (omega (arith, started_loops-length start_loop 1 (n - 1)), refl, refl),
    )

-- A pool with loops hands them out in turn: any number of calls succeeds, and gives the loops that
-- follow the last one, going round.
pub next_loops_lem :
    (n : ℕ) (p : Pool)
    → 0 < length p.loops
    → Succeeds (next_loops n p) λ r. somes r.0 ≡ round p.loops p.next n
unfolding next_loops get_next_loop
next_loops_lem zero p h = (([], p), refl, refl)
next_loops_lem (suc n) p h =
    let i = (p.next + 1) % length p.loops in
    let here = get_elem?-some p.loops i (mod-lt (p.next + 1) h) in
    let rest = next_loops_lem n (record p { next = i }) h in
    (
      (here.0 ∷ rest.0.0, rest.0.1),
      rw (lt→ltb 0 (length p.loops) h) (rw (here.1, loop_at) (rw rest.1 refl)),
      ap₂ (λ x xs. x ∷ xs) (sym here.1) rest.2,
    )

-- A loop is handed out, and the loops stay.
pub get_next_loop-loops :
    (p : Pool) → 0 < length p.loops → Succeeds (get_next_loop p) λ r. r.1.loops ≡ p.loops
unfolding get_next_loop
get_next_loop-loops p h =
    let i = (p.next + 1) % length p.loops in
    let here = get_elem?-some p.loops i (mod-lt (p.next + 1) h) in
    (
      (here.0, record p { next = i }),
      rw (lt→ltb 0 (length p.loops) h) (rw (here.1, loop_at) refl),
      refl,
    )
