-- ===== src/Checkpoint/Decimal.antt =====
-- Integers in decimal, as strconv's FormatInt and ParseInt write and read them for
-- pkg/checkpoint/storage.go.
pub mod RoundTrip
use tidemark.Prelude.{
  ℕ, zero, suc, ◌+◌, ◌-◌, ◌*◌, ◌/◌, ◌%◌, ◌≡◌, ◌≤◌, ◌<◌, refl, ℤ, pos, negsuc, Bool, true, false,
  ◌&&◌, Option, none, some, List, [], ◌∷◌, ◌++◌, ltb, leb, ◌==◌, if◌then◌else◌, arith,
}

-- The digits in front of `acc`; the fuel bounds their number.
digits : ℕ → ℕ → List ℕ → List ℕ
digits zero n acc = acc
digits (suc f) n acc =
    let rest = digits f (n / 10) ((48 + n % 10) ∷ acc) in if ltb n 10 then (48 + n) ∷ acc else rest

unfoldable pub format_nat : ℕ → List ℕ
unfolding digits
format_nat n = digits (suc n) n []

-- A minus sign before the digits of a negative number.
unfoldable pub format_int : ℤ → List ℕ
unfolding format_nat
format_int (pos n) = format_nat n
format_int (negsuc n) = 45 ∷ format_nat (suc n)

-- The number that digits stand for, after `acc`.
read_digits : ℕ → List ℕ → Option ℕ
read_digits acc [] = some acc
read_digits acc (b ∷ bs) =
    let rest = read_digits (acc * 10 + (b - 48)) bs in if leb 48 b && leb b 57 then rest else none

unfoldable pub parse_nat : List ℕ → Option ℕ
unfolding read_digits
parse_nat [] = none
parse_nat (b ∷ bs) = read_digits 0 (b ∷ bs)

at_most : ℕ → Option ℕ → Option ℕ
at_most m none = none
at_most m (some n) = if leb n m then some n else none

negative : Option ℕ → Option ℤ
negative none = none
negative (some zero) = some (pos 0)
negative (some (suc n)) = some (negsuc n)

positive : Option ℕ → Option ℤ
positive none = none
positive (some n) = some (pos n)

-- strconv.ParseInt in base 10, of 64 bits.
unfoldable pub parse_int : List ℕ → Option ℤ
unfolding parse_nat at_most negative positive
parse_int [] = none
parse_int (b ∷ bs) =
    if b == 45
    then negative (at_most 9223372036854775808 (parse_nat bs))
    else if b == 43
    then positive (at_most 9223372036854775807 (parse_nat bs))
    else positive (at_most 9223372036854775807 (parse_nat (b ∷ bs)))
