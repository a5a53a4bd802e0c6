-- ===== src/Buffer.antt =====
-- hulatang/base/Buffer.hpp: the byte buffer with a read and a write index over one vector.
pub mod Split
pub mod Valid
pub mod Space
pub mod Queue
pub mod Endian
pub mod Transfer
pub mod Stream
mod Examples
use hulatang_io.Base.{
  ℕ, zero, suc, ◌+◌, ◌-◌, ◌^◌, ◌%◌, List, [], ◌∷◌, ◌++◌, Option, none, some, ltb, leb, ◌==◌,
  if◌then◌else◌, length, take, drop, slice, ◌&&◌, Outcome, ok, thrown, ◌>>=◌, ◌>>◌, assert, require,
}

-- `kCheapPrepend` and `kInitialSize`
abbrev pub cheap_prepend : ℕ
cheap_prepend = 8

abbrev pub initial_size : ℕ
initial_size = 1024

-- the largest size of a `std::vector` of bytes
abbrev pub max_size : ℕ
max_size = 2 ^ 63 - 1

-- `size_t` arithmetic wraps.
abbrev pub add64 : ℕ → ℕ → ℕ
add64 a b = (a + b) % 2 ^ 64

abbrev pub sub64 : ℕ → ℕ → ℕ
sub64 a b = (a + 2 ^ 64 - b) % 2 ^ 64

-- A pointer into the buffer is an index of `bytes`.
pub record Buffer : Type 0 where
  pub bytes : List ℕ
  pub reader_index : ℕ
  pub writer_index : ℕ

abbrev pub readable_bytes : Buffer → ℕ
readable_bytes b = sub64 b.writer_index b.reader_index

abbrev pub writable_bytes : Buffer → ℕ
writable_bytes b = sub64 (length b.bytes) b.writer_index

abbrev pub prependable_bytes : Buffer → ℕ
prependable_bytes b = b.reader_index

-- The bytes of a `string_view` over the readable part.
abbrev pub to_string_view : Buffer → List ℕ
to_string_view b = slice b.reader_index b.writer_index b.bytes

-- `memcpy` or `std::copy` of `data` to the index `i`, inside the storage
unfoldable pub store : ℕ → List ℕ → List ℕ → Outcome (List ℕ)
store i data' bytes = do
  require (leb (i + length data') (length bytes))
  ok (take i bytes ++ (data' ++ drop (i + length data') bytes))

unfoldable pub retrieve_all : Buffer → Buffer
retrieve_all b = record b { reader_index = cheap_prepend; writer_index = cheap_prepend }

unfoldable pub retrieve : ℕ → Buffer → Outcome Buffer
retrieve len b = do
  assert (leb len (readable_bytes b))
  if ltb len (readable_bytes b)
      then ok (record b { reader_index = add64 b.reader_index len })
      else ok (retrieve_all b)

unfoldable pub retrieve_until : ℕ → Buffer → Outcome Buffer
retrieve_until end b = do
  assert (leb b.reader_index end)
  assert (leb end b.writer_index)
  retrieve (sub64 end b.reader_index) b

-- `std::string result(peek(), len)` copies `len` bytes from the read index on.
unfoldable pub retrieve_as_string : ℕ → Buffer → Outcome (List ℕ × Buffer)
retrieve_as_string len b = do
  assert (leb len (readable_bytes b))
  let result = take len (drop b.reader_index b.bytes)
  b' ← retrieve len b
  ok (result, b')

unfoldable pub retrieve_all_as_string : Buffer → Outcome (List ℕ × Buffer)
retrieve_all_as_string b = retrieve_as_string (readable_bytes b) b

unfoldable pub has_written : ℕ → Buffer → Outcome Buffer
has_written len b = do
  assert (leb len (writable_bytes b))
  ok (record b { writer_index = add64 b.writer_index len })

unfoldable pub unwrite : ℕ → Buffer → Outcome Buffer
unwrite len b = do
  assert (leb len (readable_bytes b))
  ok (record b { writer_index = sub64 b.writer_index len })

unfoldable pub prepend : List ℕ → Buffer → Outcome Buffer
prepend data' b = do
  assert (leb (length data') (prependable_bytes b))
  let r = sub64 b.reader_index (length data')
  bytes ← store r data' b.bytes
  ok (record b { bytes = bytes; reader_index = r })

unfoldable pub swap : Buffer → Buffer → Buffer × Buffer
swap b rhs = (rhs, b)

-- The move constructor swaps with a buffer that has no storage: the new buffer and what is left.
unfoldable pub move_construct : Buffer → Buffer × Buffer
move_construct other = swap (record { bytes = []; reader_index = 0; writer_index = 0 }) other

-- `std::search` for "\r\n" in a range: the offset of the first occurrence.
unfoldable pub search_crlf : List ℕ → Option ℕ
search_crlf [] = none
search_crlf (a ∷ []) = none
search_crlf (a ∷ b ∷ xs) =
    let rest = search_crlf (b ∷ xs) in
    if a == b'\r' && b == b'\n' then some 0 else elim rest [ none ↦ none | some i ↦ some (suc i) ]

-- `memchr` for '\n'
unfoldable pub search_eol : List ℕ → Option ℕ
search_eol [] = none
search_eol (a ∷ xs) =
    let rest = search_eol xs in
    if a == b'\n' then some 0 else elim rest [ none ↦ none | some i ↦ some (suc i) ]

-- The index that an offset from `start` stands for, `none` for `nullptr`.
abbrev pub at_offset : ℕ → Option ℕ → Option ℕ
at_offset start none = none
at_offset start (some i) = some (start + i)

unfoldable pub find_crlf : Buffer → Option ℕ
find_crlf b = at_offset b.reader_index (search_crlf (to_string_view b))

unfoldable pub find_crlf_from : ℕ → Buffer → Outcome (Option ℕ)
find_crlf_from start b = do
  assert (leb b.reader_index start)
  assert (leb start b.writer_index)
  ok (at_offset start (search_crlf (slice start b.writer_index b.bytes)))

unfoldable pub find_eol : Buffer → Option ℕ
find_eol b = at_offset b.reader_index (search_eol (to_string_view b))

unfoldable pub find_eol_from : ℕ → Buffer → Outcome (Option ℕ)
find_eol_from start b = do
  assert (leb b.reader_index start)
  assert (leb start b.writer_index)
  ok (at_offset start (search_eol (slice start b.writer_index b.bytes)))

-- `NoInit` leaves a new byte as it is found: `junk i` is what the cell `i` holds then.
module _ (junk : ℕ → ℕ) where
  unfoldable pub uninitialised : ℕ → ℕ → List ℕ
  uninitialised i zero = []
  uninitialised i (suc n) = junk i ∷ uninitialised (suc i) n

  -- `std::vector::resize`
  unfoldable pub resize : ℕ → List ℕ → Outcome (List ℕ)
  resize n xs =
      if ltb max_size n then thrown else ok (take n xs ++ uninitialised (length xs) (n - length xs))

  -- the constructor, with the three assertions that it ends in
  unfoldable pub new : ℕ → Outcome Buffer
  new size = do
    bytes ← resize (add64 cheap_prepend size) []
    let b : Buffer = record {
      bytes = bytes;
      reader_index = cheap_prepend;
      writer_index = cheap_prepend;
    }
    assert (readable_bytes b == 0)
    assert (writable_bytes b == size)
    assert (prependable_bytes b == cheap_prepend)
    ok b

  unfoldable pub make_space : ℕ → Buffer → Outcome Buffer
  make_space len b =
      let grown : Outcome Buffer = do
        bytes ← resize (add64 b.writer_index len) b.bytes
        ok (record b { bytes = bytes })
      in let moved : Outcome Buffer = do
        assert (ltb cheap_prepend b.reader_index)
        bytes ← store cheap_prepend (slice b.reader_index b.writer_index b.bytes) b.bytes
        let b' : Buffer = record {
          bytes = bytes;
          reader_index = cheap_prepend;
          writer_index = add64 cheap_prepend (readable_bytes b);
        }
        assert (readable_bytes b == readable_bytes b')
        ok b'
        in if ltb (add64 (writable_bytes b) (prependable_bytes b)) (add64 len cheap_prepend)
          then grown
          else moved

  unfoldable pub ensure_writable_bytes : ℕ → Buffer → Outcome Buffer
  ensure_writable_bytes len b = do
    b' ← if ltb (writable_bytes b) len then make_space len b else ok b
    assert (leb len (writable_bytes b'))
    ok b'

  -- `append(data, len)` with the bytes that stand at `data`
  unfoldable pub append : List ℕ → ℕ → Buffer → Outcome Buffer
  append data' len b = do
    b' ← ensure_writable_bytes len b
    require (leb len (length data'))
    bytes ← store b'.writer_index (take len data') b'.bytes
    has_written len (record b' { bytes = bytes })

  -- `append(std::string_view)`
  unfoldable pub append_view : List ℕ → Buffer → Outcome Buffer
  append_view str b = append str (length str) b

  -- `append(const BufferEndian &)` reads from `begin()`, not from `peek()`.
  unfoldable pub append_buffer : Buffer → Buffer → Outcome Buffer
  append_buffer other b = append other.bytes (readable_bytes other) b

  -- what is left of `other` and the new buffer
  unfoldable pub move_assign : Buffer → Buffer → Outcome (Buffer × Buffer)
  move_assign b other = do
    let s = swap b other
    temporary ← new initial_size
    ok (s.0, (swap temporary s.1).1)

  unfoldable pub shrink : ℕ → Buffer → Outcome Buffer
  shrink reserve b = do
    other ← new initial_size
    other' ← ensure_writable_bytes (add64 (readable_bytes b) reserve) other
    other'' ← append_view (to_string_view b) other'
    ok (swap b other'').0
