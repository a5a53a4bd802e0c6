-- ===== src/Io/Cycle/Order.antt =====
-- CycleEventManager::process: which tasks run, in which order.
use hulatang_io.Base.{
  ℕ, zero, suc, ◌+◌, ◌%◌, ◌^◌, ◌<◌, ◌≡◌, refl, sym, ap, ◌∙◌, List, [], ◌∷◌, ◌++◌, append_assoc,
  append-nil, length, length-append, arith, Option, none, some, Succeeds, lt→ltb, Option-cases, inl,
  inr,
}
use hulatang_io.Io.Cycle.{
  Cycle, rounds, incremented, decremented, tries, create_event, create_events, process_from,
  process,
}

-- What the tasks create, one after the other.
abbrev pub spawned : (ℕ → List ℕ) → List ℕ → List ℕ
spawned spawns [] = []
spawned spawns (t ∷ ts) = spawns t ++ spawned spawns ts

module _ (Q : Type 0) (try_enqueue enqueue : ℕ → Q → Option Q) (try_dequeue : Q → Option (ℕ × Q))
    (contents : Q → List ℕ)
    (try_enqueue-contents : (t : ℕ) (q q' : Q)
      → try_enqueue t q ≡ some q'
      → contents q' ≡ contents q ++ t ∷ [])
    (enqueue-contents : (t : ℕ) (q : Q)
      → (q' : Q) × (enqueue t q ≡ some q') × (contents q' ≡ contents q ++ t ∷ []))
    (try_dequeue-contents : (t : ℕ) (ts : List ℕ) (q : Q)
      → contents q ≡ t ∷ ts
      → (q' : Q) × (try_dequeue q ≡ some (t, q')) × (contents q' ≡ ts))
    (spawns : ℕ → List ℕ) where
  -- The count is that of the tasks in the queue and `k` more.
  abbrev pub Counts : ℕ → Cycle Q → Type 0
  Counts k m = m.size ≡ (length (contents m.queue) + k) % 2 ^ 32

  -- `ts` were put behind what was there.
  abbrev Put : List ℕ → Cycle Q → Cycle Q → Type 0
  Put ts m m' = (contents m'.queue ≡ contents m.queue ++ ts) × ((k : ℕ) → Counts k m → Counts k m')

  tries-contents :
      (n t : ℕ) (q q' : Q)
      → tries Q try_enqueue enqueue try_dequeue spawns n t q ≡ some q'
      → contents q' ≡ contents q ++ t ∷ []
  unfolding tries
  tries-contents zero t q q' e = absurd cc
  tries-contents (suc n) t q q' e = elim (Option-cases (try_enqueue t q)) [
    | inl no_room ↦ tries-contents n t q q' (sym (tries-none no_room) ∙ e)
    | inr r ↦ try_enqueue-contents t q q' (r.1 ∙ sym (tries-some r.1) ∙ e)
  ]
    where
      tries-none :
          try_enqueue t q ≡ none
          → tries Q try_enqueue enqueue try_dequeue spawns (suc n) t q
            ≡ tries Q try_enqueue enqueue try_dequeue spawns n t q
      tries-none h = rw (h, tries) refl

      tries-some :
          {q1 : Q}
          → try_enqueue t q ≡ some q1
          → tries Q try_enqueue enqueue try_dequeue spawns (suc n) t q ≡ some q1
      tries-some h = rw (h, tries) refl

  Counts-suc :
      (k : ℕ) (m : Cycle Q) (t : ℕ) (q : Q)
      → contents q ≡ contents m.queue ++ t ∷ []
      → Counts k m
      → Counts k (record { queue = q; size = incremented m.size })
  Counts-suc k m t q e h = omega (arith, h, ap length e, length-append (contents m.queue) (t ∷ []))

  create_event-Put :
      (t : ℕ) (m : Cycle Q)
      → Succeeds (create_event Q try_enqueue enqueue try_dequeue spawns t m) (Put (t ∷ []) m)
  unfolding create_event
  create_event-Put t m =
      elim (Option-cases (tries Q try_enqueue enqueue try_dequeue spawns 50 t m.queue)) [
        | inl none_of_them ↦
            let r = enqueue-contents t m.queue in
            (
              record { queue = r.0; size = incremented m.size },
              rw (none_of_them, create_event) (rw r.1 refl),
              (r.2, λ k h. Counts-suc k m t r.0 r.2 h),
            )
        | inr r ↦
            let put = tries-contents 50 t m.queue r.0 r.1 in
            (
              record { queue = r.0; size = incremented m.size },
              rw (r.1, create_event) refl,
              (put, λ k h. Counts-suc k m t r.0 put h),
            )
      ]

  create_events-Put :
      (ts : List ℕ) (m : Cycle Q)
      → Succeeds (create_events Q try_enqueue enqueue try_dequeue spawns ts m) (Put ts m)
  unfolding create_events
  create_events-Put [] m = (m, refl, (sym (append-nil (contents m.queue)), λ k h. h))
  create_events-Put (t ∷ ts) m =
      let first = create_event-Put t m in
      let rest = create_events-Put ts first.0 in
      (
        rest.0,
        rw first.1 rest.1,
        (
          rest.2.0 ∙ ap (λ l. l ++ ts) first.2.0 ∙ append_assoc (contents m.queue) (t ∷ []) ts,
          λ k h. rest.2.1 k (first.2.1 k h),
        ),
      )

  process_from-Order :
      (ts more : List ℕ) (m : Cycle Q)
      → contents m.queue ≡ ts ++ more
      → Counts 0 m
      → Succeeds
          (process_from Q try_enqueue enqueue try_dequeue spawns (length ts) m)
          λ r. (r.0 ≡ ts) × (contents r.1.queue ≡ more ++ spawned spawns ts) × Counts 0 r.1
  unfolding process_from
  process_from-Order [] more m e c = (([], m), refl, (refl, e ∙ sym (append-nil more), c))
  process_from-Order (t ∷ ts) more m e c =
      let taken = try_dequeue-contents t (ts ++ more) m.queue e in
      let m1 : Cycle Q = record m { queue = taken.0 } in
      let created = create_events-Put (spawns t) m1 in
      let m2 : Cycle Q = record created.0 { size = decremented created.0.size } in
      let one : Counts 1 created.0 =
        created.2.1 1 (omega (arith, c, ap length e, ap length taken.2)) in
      let behind : contents m2.queue ≡ ts ++ (more ++ spawns t) =
        created.2.0 ∙ ap (λ l. l ++ spawns t) taken.2 ∙ append_assoc ts more (spawns t) in
      let rest = process_from-Order ts (more ++ spawns t) m2 behind (omega (arith, one)) in
      (
        (t ∷ rest.0.0, rest.0.1),
        rw taken.1 (rw created.1 (rw rest.1 refl)),
        (
          ap (λ l. t ∷ l) rest.2.0,
          rest.2.1 ∙ append_assoc more (spawns t) (spawned spawns ts),
          rest.2.2,
        ),
      )

  -- Let the queue be first in, first out, and never refuse a task for good. Where fewer than 2 ^ 31
  -- tasks wait, and the count is theirs, `process` runs all of them, each once and in order, and
  -- comes to an end; the tasks that they create wait behind it, in order, and the count is theirs.
  pub process-order :
      (m : Cycle Q)
      → length (contents m.queue) < 2 ^ 31
      → Counts 0 m
      → Succeeds (process Q try_enqueue enqueue try_dequeue spawns m) λ r.
        (r.0 ≡ contents m.queue)
        × (contents r.1.queue ≡ spawned spawns (contents m.queue))
        × Counts 0 r.1
  unfolding process
  process-order m h c =
      let counted : m.size ≡ length (contents m.queue) = omega (arith, h, c) in
      let same : rounds m.size ≡ length (contents m.queue) =
        ap rounds counted ∙ rw (lt→ltb (length (contents m.queue)) (2 ^ 31) h) refl in
      rw same (process_from-Order (contents m.queue) [] m (sym (append-nil (contents m.queue))) c)
