-- ===== src/Buffer/Stream.antt =====
-- hulatang/base/StreamBuffer.hpp and Stream.hpp: an output stream that writes into a buffer.
use hulatang_io.Base.{
  ◌==◌, eq→==, ℕ, ◌+◌, ◌≤◌, ◌≡◌, refl, sym, ap, subst, ◌∙◌, List, [], ◌∷◌, ◌++◌, append-nil,
  append_assoc, ltb, if◌then◌else◌, length, length-append, take-all, arith, lt→ltb, Outcome, ok,
  ◌>>=◌, Succeeds, Text,
}
use hulatang_io.Buffer.{Buffer, max_size, append}
use hulatang_io.Buffer.Endian.{native, int8, append_int}
use hulatang_io.Buffer.Valid.{IsValid, contents}
use hulatang_io.Buffer.Queue.{Holds, append_within}

abbrev pub concat : List Text → Text
concat [] = []
concat (p ∷ ps) = p ++ concat ps

-- `sync`
abbrev pub sync : Buffer → ℕ × Buffer
sync b = (0, b)

module _ (junk : ℕ → ℕ) where
  -- `xsputn`: what it returns, and the buffer.
  unfoldable pub xsputn : Text → ℕ → Buffer → Outcome (ℕ × Buffer)
  xsputn s count b =
      if ltb 0 count then (append junk s count b >>= λ b'. ok (count, b')) else ok (0, b)

  -- `overflow`
  unfoldable pub overflow : ℕ → Buffer → Outcome (ℕ × Buffer)
  overflow ch b = do b' ← append_int junk native int8 ch b; ok (ch, b')

  -- `out << p` for texts, one after the other: where `xsputn` tells another number than that of the text, the stream
  -- is bad, and nothing more is written.
  unfoldable pub put_all : List Text → Buffer → Outcome Buffer
  put_all [] b = ok b
  put_all (p ∷ ps) b = do
    r ← xsputn p (length p) b
    let rest = put_all ps r.1
    if r.0 == length p then rest else ok r.1

  xsputn_lem :
      (p : Text) {b : Buffer}
      → IsValid b
      → b.writer_index + length p ≤ max_size
      → Succeeds (xsputn p (length p) b) λ r.
        (r.0 ≡ length p)
        × Holds (contents b ++ p) r.1
        × (r.1.writer_index ≤ b.writer_index + length p)
  unfolding xsputn
  xsputn_lem [] {b} v fits = (
    (0, b),
    refl,
    (refl, record { valid = v; same = sym (append-nil (contents b)) }, omega arith),
  )
  xsputn_lem (c ∷ cs) {b} v fits =
      let p = c ∷ cs in
      let r = append_within junk p (length p) v (omega arith) fits in
      (
        (length p, r.0),
        rw (lt→ltb 0 (length p) (omega arith), r.1),
        (
          refl,
          subst (λ t. Holds (contents b ++ t) r.0) (take-all (length p) p (omega arith)) r.2.0,
          r.2.1,
        ),
      )

  -- Texts that are written to the stream one after the other stand in the buffer behind what could be read,
  -- without a gap and in order, whatever their lengths, wherever a vector of the size can exist.
  pub put_all_lem :
      (ps : List Text) {b : Buffer}
      → IsValid b
      → b.writer_index + length (concat ps) ≤ max_size
      → Succeeds (put_all ps b) (Holds (contents b ++ concat ps))
  unfolding put_all
  put_all_lem [] {b} v fits = (b, refl, record { valid = v; same = sym (append-nil (contents b)) })
  put_all_lem (p ∷ ps) {b} v fits =
      let total = length-append p (concat ps) in
      let r = xsputn_lem p v (omega arith) in
      let rest = put_all_lem ps r.2.1.valid (omega (arith, r.2.2)) in
      (
        rest.0,
        rw (r.1, eq→== r.0.0 (length p) r.2.0, rest.1),
        record {
          valid = rest.2.valid;
          same =
              rest.2.same
              ∙ ap (λ t. t ++ concat ps) r.2.1.same
              ∙ append_assoc (contents b) p (concat ps);
        },
      )
