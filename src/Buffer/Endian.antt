-- ===== src/Buffer/Endian.antt =====
-- The integers of hulatang/base/Buffer.hpp: `bit_endian`, the appends, the prepends and `readInt8`.
-- An integer is its bit pattern, and its bytes lie in memory lowest first (a little-endian machine).
use mathlib.Core.List.{reverse}
use hulatang_io.Base.{
  ℕ, zero, suc, ◌∙◌, ◌+◌, ◌*◌, ◌/◌, ◌%◌, ◌^◌, ◌≤◌, ◌<◌, ◌≡◌, refl, ap, List, [], ◌∷◌, ◌++◌, arith,
  length, leb, get_elem?, none, some, Outcome, ok, undefined, assert, ◌>>=◌, ◌>>◌, Succeeds,
  take-all,
}
use hulatang_io.Buffer.{Buffer, max_size, append, prepend, retrieve, readable_bytes}
use hulatang_io.Buffer.Valid.{IsValid, contents}
use hulatang_io.Buffer.Queue.{Holds, append_lem, prepend_lem}

-- The byte order that a buffer is made for: that of the machine, or the other.
pub data Endian : Type 0 where
  native foreign : Endian

pub data Width : Type 0 where
  int8 int16 int32 int64 : Width

-- `sizeof`
abbrev pub size_of : Width → ℕ
size_of int8 = 1
size_of int16 = 2
size_of int32 = 4
size_of int64 = 8

-- the byte `k` of `x`, moved to the byte `j`: a mask and a shift
abbrev move_byte : ℕ → ℕ → ℕ → ℕ
move_byte k j x = x / 2 ^ (8 * k) % 256 * 2 ^ (8 * j)

-- The operands of `|` share no bit, so it is a sum.
unfoldable pub bit_endian : Endian → Width → ℕ → ℕ
bit_endian native w i = i
bit_endian foreign int64 i =
    move_byte 0 7 i
    + move_byte 1 6 i
    + move_byte 2 5 i
    + move_byte 3 4 i
    + move_byte 4 3 i
    + move_byte 5 2 i
    + move_byte 6 1 i
    + move_byte 7 0 i
bit_endian foreign int32 i = move_byte 0 3 i + move_byte 1 2 i + move_byte 2 1 i + move_byte 3 0 i
bit_endian foreign int16 i = move_byte 0 1 i + move_byte 1 0 i
bit_endian foreign int8 i = i

-- the object representation of an integer of `n` bytes
unfoldable pub to_bytes : ℕ → ℕ → List ℕ
to_bytes zero x = []
to_bytes (suc n) x = x % 256 ∷ to_bytes n (x / 256)

pub length-to_bytes : (n x : ℕ) → length (to_bytes n x) ≡ n
unfolding to_bytes
length-to_bytes zero x = refl
length-to_bytes (suc n) x = ap suc (length-to_bytes n (x / 256))

-- `appendInt64`, `appendInt32`, `appendInt16` and `appendInt8`
unfoldable pub append_int : (ℕ → ℕ) → Endian → Width → ℕ → Buffer → Outcome Buffer
append_int junk e w x b = append junk (to_bytes (size_of w) (bit_endian e w x)) (size_of w) b

-- `prependInt64`, `prependInt32`, `prependInt16` and `prependInt8`
unfoldable pub prepend_int : Endian → Width → ℕ → Buffer → Outcome Buffer
prepend_int e w x b = prepend (to_bytes (size_of w) (bit_endian e w x)) b

-- `retrieveInt64`, `retrieveInt32`, `retrieveInt16` and `retrieveInt8`
unfoldable pub retrieve_int : Width → Buffer → Outcome Buffer
retrieve_int w b = retrieve (size_of w) b

abbrev pub byte_at : List ℕ → ℕ → Outcome ℕ
byte_at xs i = elim (get_elem? xs i) [ none ↦ undefined | some x ↦ ok x ]

unfoldable pub peek_int8 : Buffer → Outcome ℕ
peek_int8 b = do assert (leb 1 (readable_bytes b)); byte_at b.bytes b.reader_index

unfoldable pub read_int8 : Buffer → Outcome (ℕ × Buffer)
read_int8 b = do result ← peek_int8 b; b' ← retrieve_int int8 b; ok (result, b')

-- Swapping the bytes twice gives every integer of the width back, for either byte order.
pub bit_endian_twice :
    (e : Endian) (w : Width) (x : ℕ) → x < 256 ^ size_of w → bit_endian e w (bit_endian e w x) ≡ x
unfolding bit_endian
bit_endian_twice native w x h = refl
bit_endian_twice foreign int8 x h = refl
bit_endian_twice foreign int16 x h = omega arith
bit_endian_twice foreign int32 x h = omega arith
bit_endian_twice foreign int64 x h = omega arith

-- A buffer of the other byte order stores an integer highest byte first.
pub to_bytes-bit_endian :
    (w : Width) (x : ℕ)
    → x < 256 ^ size_of w
    → to_bytes (size_of w) (bit_endian foreign w x) ≡ reverse (to_bytes (size_of w) x)
unfolding bit_endian to_bytes
to_bytes-bit_endian int8 x h = refl
to_bytes-bit_endian int16 x h = ground arith
to_bytes-bit_endian int32 x h = ground arith
to_bytes-bit_endian int64 x h = ground arith

-- The bytes of an integer as a buffer of the byte order stores them.
unfoldable pub stored : Endian → Width → ℕ → List ℕ
stored native w x = to_bytes (size_of w) x
stored foreign w x = reverse (to_bytes (size_of w) x)

stored_lem :
    (e : Endian) (w : Width) (x : ℕ)
    → x < 256 ^ size_of w
    → to_bytes (size_of w) (bit_endian e w x) ≡ stored e w x
unfolding stored bit_endian
stored_lem native w x h = refl
stored_lem foreign w x h = to_bytes-bit_endian w x h

-- On a valid buffer and for an integer of the width, where there is room before the read index and
-- a vector of the size can exist: `appendIntN` adds the bytes of the integer behind the readable
-- ones, and `prependIntN` puts them in front, lowest byte first in a buffer of the machine's byte
-- order and highest first in one of the other.
pub append_int_lem :
    (junk : ℕ → ℕ) (e : Endian) (w : Width) (x : ℕ) {b : Buffer}
    → IsValid b
    → x < 256 ^ size_of w
    → b.writer_index + size_of w ≤ max_size
    → size_of w ≤ b.reader_index
    → Succeeds (append_int junk e w x b) (Holds (contents b ++ stored e w x))
      × Succeeds (prepend_int e w x b) (Holds (stored e w x ++ contents b))
unfolding append_int prepend_int
append_int_lem junk e w x {b} v small fits room =
    let xs = to_bytes (size_of w) (bit_endian e w x) in
    let n = length-to_bytes (size_of w) (bit_endian e w x) in
    let a = append_lem junk xs (size_of w) v (omega (arith, n)) fits in
    let p = (prepend_lem xs v).0 (omega (arith, n)) in
    let same = stored_lem e w x small in
    (
      (
        a.0,
        a.1,
        record {
          valid = a.2.valid;
          same =
              a.2.same
              ∙ ap (λ t. contents b ++ t) (take-all (size_of w) xs (omega (arith, n)) ∙ same);
        },
      ),
      (p.0, p.1, record { valid = p.2.valid; same = p.2.same ∙ ap (λ t. t ++ contents b) same }),
    )
