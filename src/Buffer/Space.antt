-- ===== src/Buffer/Space.antt =====
-- `makeSpace` and `ensureWritableBytes`: room is made, and nothing that can be read changes.
use hulatang_io.Base.{
  ℕ, zero, suc, ◌+◌, ◌-◌, ◌≤◌, ◌<◌, ◌≡◌, refl, ap, ◌∙◌, inl, inr, List, ◌++◌, Bool-cases, ltb, ◌==◌,
  lt→ltb, ge→ltb, le→leb, ltb→lt, ltb→ge, eq→==, dec_lt, true, false, arith, length, take, drop,
  slice, length-append, length-take, take-all, Succeeds, ok, length-drop,
}
use hulatang_io.Buffer.{
  Buffer, cheap_prepend, max_size, add64, sub64, readable_bytes, writable_bytes, prependable_bytes,
  uninitialised, resize, store, make_space, ensure_writable_bytes,
}
use hulatang_io.Buffer.Split.{slice-append, length-slice, slice-append_left}
use hulatang_io.Buffer.Valid.{IsValid, contents}

-- what room for `n` bytes means
pub record HasRoom (n : ℕ) (b b' : Buffer) : Type 0 where
  pub valid : IsValid b'
  pub kept : contents b' ≡ contents b
  pub room : b'.writer_index + n ≤ length b'.bytes
  pub no_higher : b'.writer_index ≤ b.writer_index

-- `xs` with `ys` written at index `i`
abbrev pub written : ℕ → List ℕ → List ℕ → List ℕ
written i ys xs = take i xs ++ (ys ++ drop (i + length ys) xs)

pub store_lem :
    (i : ℕ) (ys xs : List ℕ) → i + length ys ≤ length xs → store i ys xs ≡ ok (written i ys xs)
unfolding store
store_lem i ys xs h = rw (le→leb _ _ h)

pub length-written :
    (i : ℕ) (ys xs : List ℕ) → i + length ys ≤ length xs → length (written i ys xs) ≡ length xs
length-written i ys xs h = omega (
  arith,
  length-append (take i xs) (ys ++ drop (i + length ys) xs),
  length-append ys (drop (i + length ys) xs),
  length-take i xs,
  length-drop (i + length ys) xs,
)

module _ (junk : ℕ → ℕ) where
  pub length-uninitialised : (i n : ℕ) → length (uninitialised junk i n) ≡ n
  unfolding uninitialised
  length-uninitialised i zero = refl
  length-uninitialised i (suc n) = ap suc (length-uninitialised (suc i) n)

  -- Growing keeps every byte.
  pub resize-grow :
      (n : ℕ) (xs : List ℕ)
      → length xs ≤ n
      → n ≤ max_size
      → Succeeds
          (resize junk n xs)
          λ ys. (ys ≡ xs ++ uninitialised junk (length xs) (n - length xs)) × (length ys ≡ n)
  unfolding resize
  resize-grow n xs p q = (
    xs ++ rest,
    ground (arith, take-all n xs p),
    (refl, omega (arith, length-append xs rest, length-uninitialised (length xs) (n - length xs))),
  )
    where
      rest : List ℕ
      rest = uninitialised junk (length xs) (n - length xs)

  -- With too little room at both ends together, the storage grows to just enough.
  make_space-grow :
      (n : ℕ) {b : Buffer}
      → IsValid b
      → b.writer_index + n ≤ max_size
      → length b.bytes - b.writer_index < n
      → length b.bytes - b.writer_index + b.reader_index < n + 8
      → Succeeds (make_space junk n b) (HasRoom n b)
  unfolding make_space
  make_space-grow n {b} v fits short tight =
      let r = resize-grow (add64 b.writer_index n) b.bytes (omega arith) (omega arith) in
      let e : (ltb (add64 (writable_bytes b) (prependable_bytes b)) (add64 n cheap_prepend))
          ≡ true =
        lt→ltb _ _ (omega arith) in
      (
        record b { bytes = r.0 },
        rw (e, r.1),
        record {
          valid = omega (arith, r.2);
          kept =
              ap (slice b.reader_index b.writer_index) r.2.0
              ∙ slice-append_left b.reader_index b.writer_index b.bytes _ v.ordered v.within;
          room = omega (arith, r.2.1);
          no_higher = omega arith;
        },
      )

  -- Else the readable bytes move to the front.
  make_space-move :
      (n : ℕ) {b : Buffer}
      → IsValid b
      → length b.bytes - b.writer_index < n
      → n + 8 ≤ length b.bytes - b.writer_index + b.reader_index
      → Succeeds (make_space junk n b) (HasRoom n b)
  unfolding make_space
  make_space-move n {b} v short loose =
      let s = slice b.reader_index b.writer_index b.bytes in
      let sized = length-slice b.reader_index b.writer_index b.bytes v.ordered v.within in
      let fits : 8 + length s ≤ length b.bytes = omega (arith, sized) in
      let tests : (ltb (add64 (writable_bytes b) (prependable_bytes b)) (add64 n cheap_prepend)
            ≡ false)
          × (ltb cheap_prepend b.reader_index ≡ true)
          × ((readable_bytes b == sub64 (add64 8 (readable_bytes b)) 8) ≡ true) =
        (ge→ltb _ _ (omega arith), lt→ltb _ _ (omega arith), eq→== _ _ (omega arith)) in
      (
        record {
          bytes = written 8 s b.bytes;
          reader_index = 8;
          writer_index = add64 8 (readable_bytes b);
        },
        rw (tests.0, tests.1, store_lem 8 s b.bytes fits, tests.2),
        record {
          valid = omega (arith, sized, length-written 8 s b.bytes fits);
          kept =
              slice-append 8 (add64 8 (readable_bytes b)) (take 8 b.bytes) s _
                (omega (arith, length-take 8 b.bytes))
                (omega (arith, length-take 8 b.bytes, sized));
          room = omega (arith, sized, length-written 8 s b.bytes fits);
          no_higher = omega arith;
        },
      )

  -- `ensureWritableBytes` gives room for `n` bytes wherever a vector of that size can exist.
  pub ensure_writable_bytes-HasRoom :
      (n : ℕ) {b : Buffer}
      → IsValid b
      → b.writer_index + n ≤ max_size
      → Succeeds (ensure_writable_bytes junk n b) (HasRoom n b)
  unfolding ensure_writable_bytes
  ensure_writable_bytes-HasRoom n {b} v fits = elim (Bool-cases (ltb (writable_bytes b) n)) [
    | inl short ↦
        let r = made (ltb→lt _ _ short) in (r.0, rw (short, r.1, le→leb _ _ (enough r.2)), r.2)
    | inr wide ↦
        let h : HasRoom n b b = record {
          valid = v;
          kept = refl;
          room = omega (arith, ltb→ge _ _ wide);
          no_higher = omega arith;
        } in
        (b, rw (wide, le→leb _ _ (enough h)), h)
  ]
    where
      enough : {b' : Buffer} → HasRoom n b b' → n ≤ writable_bytes b'
      enough h = omega arith

      made : writable_bytes b < n → Succeeds (make_space junk n b) (HasRoom n b)
      made short = elim (dec_lt (length b.bytes - b.writer_index + b.reader_index) (n + 8)) [
        | yes tight ↦ make_space-grow n v fits (omega arith) tight
        | no loose ↦ make_space-move n v (omega arith) (omega arith)
      ]
