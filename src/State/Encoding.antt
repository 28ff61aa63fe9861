-- ===== src/State/Encoding.antt =====
-- pkg/state/encoding.go: int64s as bytes that sort like the numbers. A byte is a number below 256.
pub mod Order
mod Tests
use tidemark.Prelude.{
  ℕ, zero, suc, ◌+◌, ◌-◌, ◌*◌, ◌/◌, ◌%◌, ◌^◌, ℤ, pos, negsuc, Bool, true, false, Option, none, some,
  List, [], ◌∷◌, ltb, ◌==◌, if◌then◌else◌, to_int64,
}

-- binary.BigEndian.PutUint64, for `k` bytes.
unfoldable pub big_endian : ℕ → ℕ → List ℕ
big_endian zero n = []
big_endian (suc k) n = n / 256 ^ k % 256 ∷ big_endian k n

-- binary.BigEndian.Uint64: it panics on fewer than `k` bytes, and ignores more.
unfoldable pub from_big_endian : ℕ → List ℕ → Option ℕ
from_big_endian zero bs = some 0
from_big_endian (suc k) [] = none
from_big_endian (suc k) (b ∷ bs) = elim (from_big_endian k bs) [
  | none ↦ none
  | some n ↦ some (b * 256 ^ k + n)
]

-- The conversion of an int64 to uint64.
unfoldable pub to_uint64 : ℤ → ℕ
to_uint64 (pos n) = n % 18446744073709551616
to_uint64 (negsuc n) = 18446744073709551615 - n % 18446744073709551616

-- `x ^ signBit`: flipping the highest of 64 bits adds 2 ^ 63, without a carry.
unfoldable pub flip_sign : ℕ → ℕ
flip_sign x = (x + 9223372036854775808) % 18446744073709551616

unfoldable pub encode_ordered_int64 : ℤ → List ℕ
encode_ordered_int64 v = big_endian 8 (flip_sign (to_uint64 v))

unfoldable pub read_ordered : Option ℕ → Option ℤ
read_ordered none = none
read_ordered (some x) = some (to_int64 (flip_sign x))

unfoldable pub decode_ordered_int64 : List ℕ → Option ℤ
unfolding read_ordered
decode_ordered_int64 b = read_ordered (from_big_endian 8 b)
