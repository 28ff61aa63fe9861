-- ===== src/Checkpoint/Decimal/RoundTrip.antt =====
-- Decimal integers for pkg/checkpoint/storage.go: what was written is read back.
use tidemark.Prelude.{
  ℕ, zero, suc, ◌+◌, ◌*◌, ◌/◌, ◌%◌, ◌≡◌, ◌≤◌, ◌<◌, refl, ap, ◌∙◌, ℤ, pos, negsuc, IsInt64, true,
  false, some, List, [], ◌∷◌, All, ltb, leb, ◌==◌, Bool-cases, inl, inr, arith,
}
use tidemark.Checkpoint.Decimal.{
  digits, format_nat, format_int, read_digits, parse_nat, at_most, negative, positive, parse_int,
}

-- A decimal digit.
abbrev pub IsDigit : ℕ → Type 0
IsDigit b = (48 ≤ b) × (b ≤ 57)

digits-IsDigit : (f n : ℕ) (acc : List ℕ) → All IsDigit acc → All IsDigit (digits f n acc)
unfolding digits
digits-IsDigit zero n acc h = h
digits-IsDigit (suc f) n acc h = elim (Bool-cases (ltb n 10)) [
  | inl e ↦ rw e ((omega arith, ground (arith, e)), h)
  | inr e ↦ rw e (digits-IsDigit f (n / 10) ((48 + n % 10) ∷ acc) ((omega arith, omega arith), h))
]

pub format_nat-IsDigit : (n : ℕ) → All IsDigit (format_nat n)
unfolding format_nat
format_nat-IsDigit n = digits-IsDigit (suc n) n [] tt

read_digit :
    (acc n : ℕ) (rest : List ℕ)
    → n < 10
    → read_digits acc ((48 + n) ∷ rest) ≡ read_digits (acc * 10 + n) rest
unfolding read_digits
read_digit acc n rest h =
    let low : leb 48 (48 + n) ≡ true = ground arith in
    let high : leb (48 + n) 57 ≡ true = ground arith in
    rw (low, high) (ap (λ m. read_digits m rest) (omega arith))

read_digits-digits :
    (f n : ℕ) (acc : List ℕ) → n < f → read_digits 0 (digits f n acc) ≡ read_digits n acc
unfolding digits
read_digits-digits zero n acc h = absurd (omega (arith, h))
read_digits-digits (suc f) n acc h = elim (Bool-cases (ltb n 10)) [
  | inl e ↦
      rw e (read_digit 0 n acc (ground (arith, e)) ∙ ap (λ m. read_digits m acc) (omega arith))
  | inr e ↦ rw e (
      read_digits-digits f (n / 10) ((48 + n % 10) ∷ acc) (ground (arith, e, h))
      ∙ read_digit (n / 10) (n % 10) acc (omega arith)
      ∙ ap (λ m. read_digits m acc) (omega arith))
]

digits_nonempty :
    (f n x : ℕ) (acc : List ℕ) → (b : ℕ) × (bs : List ℕ) × (digits f n (x ∷ acc) ≡ b ∷ bs)
unfolding digits
digits_nonempty zero n x acc = (x, acc, refl)
digits_nonempty (suc f) n x acc = elim (Bool-cases (ltb n 10)) [
  | inl e ↦ (48 + n, x ∷ acc, rw e refl)
  | inr e ↦ let (b, bs, p) = digits_nonempty f (n / 10) (48 + n % 10) (x ∷ acc) in (b, bs, rw e p)
]

-- The text of a number begins with a digit.
format_nat_cons : (n : ℕ) → (b : ℕ) × (bs : List ℕ) × (format_nat n ≡ b ∷ bs)
unfolding format_nat digits
format_nat_cons n = elim (Bool-cases (ltb n 10)) [
  | inl e ↦ (48 + n, [], rw e refl)
  | inr e ↦ let (b, bs, p) = digits_nonempty n (n / 10) (48 + n % 10) [] in (b, bs, rw e p)
]

read_format : (n : ℕ) → read_digits 0 (format_nat n) ≡ some n
unfolding format_nat read_digits
read_format n = read_digits-digits (suc n) n [] (omega arith)

positive-some : (n : ℕ) → positive (some n) ≡ some (pos n)
unfolding positive
positive-some n = refl

negative-some : (n : ℕ) → negative (some (suc n)) ≡ some (negsuc n)
unfolding negative
negative-some n = refl

signed : (bs : List ℕ) → parse_int (45 ∷ bs) ≡ negative (at_most 9223372036854775808 (parse_nat bs))
unfolding parse_int
signed bs = refl

nonempty : (bs : List ℕ) (b : ℕ) (rest : List ℕ) → bs ≡ b ∷ rest → parse_nat bs ≡ read_digits 0 bs
unfolding parse_nat
nonempty bs b rest e = rw e refl

pub parse_nat-format_nat : (n : ℕ) → parse_nat (format_nat n) ≡ some n
parse_nat-format_nat n =
    let (b, bs, p) = format_nat_cons n in nonempty (format_nat n) b bs p ∙ read_format n

unsigned :
    (bs : List ℕ) (b : ℕ) (rest : List ℕ)
    → bs ≡ b ∷ rest
    → All IsDigit bs
    → parse_int bs ≡ positive (at_most 9223372036854775807 (parse_nat bs))
unfolding parse_int
unsigned bs b rest e h =
    let first : IsDigit b = (rw e at h).0 in
    let minus : (b == 45) ≡ false = ground (arith, first) in
    let plus : (b == 43) ≡ false = ground (arith, first) in rw e (rw (minus, plus) refl)

within : (m n : ℕ) → n ≤ m → at_most m (some n) ≡ some n
unfolding at_most
within m n h = let e : leb n m ≡ true = ground (arith, h) in rw e refl

-- An int64 is read back as it was written.
pub parse_int-format_int : (n : ℤ) → IsInt64 n → parse_int (format_int n) ≡ some n
unfolding format_int
parse_int-format_int (pos n) h =
    let (b, bs, p) = format_nat_cons n in
    unsigned (format_nat n) b bs p (format_nat-IsDigit n)
    ∙ ap (λ o. positive (at_most 9223372036854775807 o)) (parse_nat-format_nat n)
    ∙ ap positive (within 9223372036854775807 n (omega (arith, h)))
    ∙ positive-some n
parse_int-format_int (negsuc n) h =
    signed (format_nat (suc n))
    ∙ ap (λ o. negative (at_most 9223372036854775808 o)) (parse_nat-format_nat (suc n))
    ∙ ap negative (within 9223372036854775808 (suc n) (omega (arith, h)))
    ∙ negative-some n
