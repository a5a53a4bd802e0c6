-- ===== src/Buffer/Examples.antt =====
-- Small buffers, and the theorems of hulatang/base/Buffer.hpp at them.
use hulatang_io.Base.{
  ℕ, ◌≤◌, ◌<◌, ◌≡◌, refl, [], ◌∷◌, ◌++◌, arith, take, drop, some, Succeeds, ok, aborted,
}
use hulatang_io.Buffer.{
  Buffer, retrieve, append, shrink, store, ensure_writable_bytes, make_space, resize, uninitialised,
  has_written, find_crlf, search_crlf,
}
use hulatang_io.Buffer.Valid.{IsValid, contents}
use hulatang_io.Buffer.Queue.{Holds, retrieve_lem, append_lem}
use hulatang_io.Buffer.Transfer.{shrink_lem}
use hulatang_io.Buffer.Endian.{
  Endian, Width, append_int, prepend_int, stored, append_int_lem, read_int8, peek_int8,
  retrieve_int,
}

abbrev junk : ℕ → ℕ
junk i = 170

-- three readable bytes in a storage of fourteen
abbrev three : Buffer
three = record {
  bytes = 0 ∷ 0 ∷ 0 ∷ 0 ∷ 0 ∷ 0 ∷ 0 ∷ 0 ∷ 0 ∷ 7 ∷ 8 ∷ 9 ∷ 0 ∷ 0 ∷ [];
  reader_index = 9;
  writer_index = 12;
}

abbrev empty : Buffer
empty = record three { reader_index = 8; writer_index = 8 }

three-IsValid : IsValid three
three-IsValid = omega arith

empty-Holds : Holds [] empty
unfolding take
empty-Holds = record { valid = omega arith; same = refl }

-- Three more bytes fit once the readable ones have moved to the front.
append_moves :
    append junk (1 ∷ 2 ∷ 3 ∷ []) 3 three
    ≡ ok (record {
      bytes = 0 ∷ 0 ∷ 0 ∷ 0 ∷ 0 ∷ 0 ∷ 0 ∷ 0 ∷ 7 ∷ 8 ∷ 9 ∷ 1 ∷ 2 ∷ 3 ∷ [];
      reader_index = 8;
      writer_index = 14;
    })
unfolding append ensure_writable_bytes make_space store has_written take drop
append_moves = refl

append_grows :
    Succeeds
      (append junk (1 ∷ 2 ∷ 3 ∷ 4 ∷ []) 4 three)
      λ b. contents b ≡ 7 ∷ 8 ∷ 9 ∷ 1 ∷ 2 ∷ 3 ∷ 4 ∷ []
unfolding append ensure_writable_bytes make_space resize uninitialised store has_written take drop
append_grows = (_, refl, refl)

find_crlf_test :
    find_crlf (record three { bytes = 0 ∷ 0 ∷ 0 ∷ 0 ∷ 0 ∷ 0 ∷ 0 ∷ 0 ∷ 0 ∷ 7 ∷ 13 ∷ 10 ∷ [] })
    ≡ some 10
unfolding find_crlf search_crlf take drop
find_crlf_test = refl

read_int8_test : read_int8 three ≡ ok (7, record three { reader_index = 10 })
unfolding read_int8 peek_int8 retrieve_int retrieve
read_int8_test = refl

retrieve_lem_example :
    (2 ≤ 3 → Succeeds (retrieve 2 three) (Holds (drop 2 (contents three))))
    × (3 < 2 → retrieve 2 three ≡ aborted)
retrieve_lem_example = retrieve_lem 2 three-IsValid

append_lem_example :
    Succeeds
      (append junk (1 ∷ 2 ∷ 3 ∷ 4 ∷ []) 4 three)
      (Holds (contents three ++ take 4 (1 ∷ 2 ∷ 3 ∷ 4 ∷ [])))
append_lem_example =
    append_lem junk (1 ∷ 2 ∷ 3 ∷ 4 ∷ []) 4 three-IsValid (omega arith) (omega arith)

shrink-three : Succeeds (shrink junk 4 three) (Holds (contents three))
shrink-three = shrink_lem junk 4 three-IsValid (omega arith)

append_int_lem_example :
    Succeeds
      (append_int junk Endian.foreign Width.int16 258 three)
      (Holds (contents three ++ stored Endian.foreign Width.int16 258))
    × Succeeds
        (prepend_int Endian.foreign Width.int16 258 three)
        (Holds (stored Endian.foreign Width.int16 258 ++ contents three))
append_int_lem_example =
    append_int_lem junk Endian.foreign Width.int16 258 three-IsValid (omega arith) (omega arith)
      (omega arith)
