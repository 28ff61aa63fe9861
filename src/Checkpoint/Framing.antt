-- ===== src/Checkpoint/Framing.antt =====
-- pkg/checkpoint/storage.go: what its files are made of. A byte is a number below 256, and a Go string
-- is a text each of whose characters stands for one byte, the character's code. The checksum is that of
-- hash/crc32, ChecksumIEEE, one bit at a time.
use Prim.Native.Char.{Char, char, code, IsScalar}
use Prim.Native.Nat.{bit_xor}
use text.Mathlib.TextEquality.{Char-path}
use native.Mathlib.Nat.{mod-lt, mod-eq_of_lt}
use tidemark.Prelude.{
  ℕ, zero, suc, ◌/◌, ◌%◌, ◌≡◌, ◌<◌, refl, String, List, [], ◌∷◌, ◌==◌, All, if◌then◌else◌, arith,
}

-- The bytes of a string.
unfoldable pub bytes_of : String → List ℕ
bytes_of String.[] = []
bytes_of (String.◌∷◌ c s) = code c ∷ bytes_of s

byte_scalar : (n : ℕ) → n < 256 → IsScalar n
byte_scalar n h = ground arith

byte_char : ℕ → Char
unfolding byte_scalar
byte_char b = char (b % 256) (byte_scalar (b % 256) (mod-lt b (omega arith)))

-- The string of some bytes.
unfoldable pub string_of : List ℕ → String
unfolding byte_char
string_of [] = String.[]
string_of (b ∷ bs) = String.◌∷◌ (byte_char b) (string_of bs)

-- Every character stands for a byte.
abbrev pub IsByteString : String → Type 0
IsByteString s = All (λ b. b < 256) (bytes_of s)

pub string_of-bytes_of : (s : String) → IsByteString s → string_of (bytes_of s) ≡ s
unfolding string_of bytes_of byte_char
string_of-bytes_of String.[] h = refl
string_of-bytes_of (String.◌∷◌ c s) h =
    let same : byte_char (code c) ≡ c = Char-path (byte_char (code c)) c (mod-eq_of_lt h.0) in
    rw (same, string_of-bytes_of s h.1) refl

pub bytes_of-string_of : (bs : List ℕ) → All (λ b. b < 256) bs → bytes_of (string_of bs) ≡ bs
unfolding string_of bytes_of byte_char
bytes_of-string_of [] h = refl
bytes_of-string_of (b ∷ bs) h = rw (mod-eq_of_lt h.0, bytes_of-string_of bs h.1) refl

-- One bit of the reflected polynomial division.
crc_bit : ℕ → ℕ
crc_bit c = if c % 2 == 1 then bit_xor (c / 2) 0xedb88320 else c / 2

crc_bits : ℕ → ℕ → ℕ
unfolding crc_bit
crc_bits zero c = c
crc_bits (suc n) c = crc_bits n (crc_bit c)

crc_update : ℕ → List ℕ → ℕ
unfolding crc_bits
crc_update c [] = c
crc_update c (b ∷ bs) = crc_update (crc_bits 8 (bit_xor c b)) bs

-- crc32.ChecksumIEEE, a uint32.
unfoldable pub checksum_ieee : List ℕ → ℕ
unfolding crc_update
checksum_ieee bs = bit_xor (crc_update 0xffffffff bs) 0xffffffff % 4294967296

pub checksum_ieee-lt : (bs : List ℕ) → checksum_ieee bs < 4294967296
unfolding checksum_ieee
checksum_ieee-lt bs = mod-lt _ (omega arith)

-- The check value of the CRC's catalogue entry.
check_value : checksum_ieee (bytes_of "123456789") ≡ 0xcbf43926
unfolding checksum_ieee bytes_of
check_value = refl
