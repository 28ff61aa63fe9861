-- ===== src/Prelude/Int.antt =====
-- Signed integers over the native numbers, and Go's int64: a word of 64 bits read as signed.
use Prim.Native.Nat.{ℕ, zero, suc, ◌+◌, ◌-◌, ◌/◌, ◌%◌, ◌≤◌, ◌<◌}
use mathlib.Core.Path.{◌≡◌, refl, ap, ◌∙◌}
use mathlib.Core.Bool.{Bool, true, false, ◌&&◌}
use mathlib.Core.Logic.{◌↔◌}
use native.Mathlib.Omega.{arith}
use native.Mathlib.Nat.{mod-eq_of_lt}
use tidemark.Prelude.Tests.{ltb, leb, lt→ltb, ◌==◌, if◌then◌else◌}

-- `negsuc n` is -(n + 1).
pub data ℤ : Type 0 where
  pos : ℕ → ℤ
  negsuc : ℕ → ℤ

abbrev pub pos_part : ℤ → ℕ
pos_part (pos n) = n
pos_part (negsuc n) = 0

abbrev pub neg_part : ℤ → ℕ
neg_part (pos n) = 0
neg_part (negsuc n) = suc n

infix 50 ◌≤ℤ◌ ◌<ℤ◌
abbrev pub ◌≤ℤ◌ : ℤ → ℤ → Type 0
a ≤ℤ b = pos_part a + neg_part b ≤ pos_part b + neg_part a

abbrev pub ◌<ℤ◌ : ℤ → ℤ → Type 0
a <ℤ b = pos_part a + neg_part b < pos_part b + neg_part a

abbrev pub ltb_ℤ : ℤ → ℤ → Bool
ltb_ℤ a b = ltb (pos_part a + neg_part b) (pos_part b + neg_part a)

abbrev pub leb_ℤ : ℤ → ℤ → Bool
leb_ℤ a b = leb (pos_part a + neg_part b) (pos_part b + neg_part a)

pub ≤ℤ_antisymm : (a b : ℤ) → a ≤ℤ b → b ≤ℤ a → a ≡ b
≤ℤ_antisymm a b h k = ground arith

-- math.MaxInt64 and math.MinInt64.
abbrev pub max_int64 : ℤ
max_int64 = pos 9223372036854775807

abbrev pub min_int64 : ℤ
min_int64 = negsuc 9223372036854775807

abbrev pub IsInt64 : ℤ → Type 0
IsInt64 a = (min_int64 ≤ℤ a) × (a ≤ℤ max_int64)

abbrev pub eqb_ℤ : ℤ → ℤ → Bool
eqb_ℤ a b = (pos_part a == pos_part b) && (neg_part a == neg_part b)

pub eqb_ℤ_iff : (a b : ℤ) → (eqb_ℤ a b ≡ true) ↔ (a ≡ b)
eqb_ℤ_iff a b = ground arith

-- One entry of a map from integers that is a function of the key.
abbrev pub update_at {ℓ} : {A : Type ℓ} → (ℤ → A) → ℤ → A → ℤ → A
update_at f a x b = if eqb_ℤ a b then x else f b

-- The low 64 bits of a number, read as an int64.
unfoldable pub to_int64 : ℕ → ℤ
to_int64 n =
    let w = n % 18446744073709551616 in
    if ltb w 9223372036854775808 then pos w else negsuc (18446744073709551615 - w)

pub to_int64-small : (n : ℕ) → n ≤ 9223372036854775807 → to_int64 n ≡ pos n
unfolding to_int64
to_int64-small n h =
    let e : n % 18446744073709551616 ≡ n = mod-eq_of_lt (omega arith) in
    rw e (rw (lt→ltb n 9223372036854775808 (omega arith)) refl)

abbrev pub negate : ℕ → ℤ
negate zero = pos 0
negate (suc n) = negsuc n

-- Go's division of an int64 by a positive number: it rounds towards zero.
abbrev pub quot : ℤ → ℕ → ℤ
quot (pos n) d = pos (n / d)
quot (negsuc n) d = negate (suc n / d)

abbrev pub suc_ℤ : ℤ → ℤ
suc_ℤ (pos n) = pos (suc n)
suc_ℤ (negsuc zero) = pos 0
suc_ℤ (negsuc (suc n)) = negsuc n

-- `x++` on an int64.
abbrev pub increment : ℤ → ℤ
increment a = if eqb_ℤ a max_int64 then min_int64 else suc_ℤ a

pub increment-pos : (n : ℕ) → n < 9223372036854775807 → increment (pos n) ≡ pos (suc n)
increment-pos n h = ground arith

-- The difference of two integers.
unfoldable pub difference : ℤ → ℤ → ℤ
difference a b =
    let m = pos_part a + neg_part b in
    let n = pos_part b + neg_part a in if ltb m n then negsuc (n - m - 1) else pos (m - n)

-- An integer's low 64 bits, read as an int64: what arithmetic on int64 wraps to.
unfoldable pub wrap : ℤ → ℤ
wrap (pos n) = to_int64 n
wrap (negsuc n) = to_int64 (18446744073709551615 - n % 18446744073709551616)

-- `difference` by its defining equation.
pub difference_lem :
    (a b : ℤ)
    → pos_part (difference a b) + (pos_part b + neg_part a)
      ≡ neg_part (difference a b) + (pos_part a + neg_part b)
unfolding difference
difference_lem a b = ground arith

pub to_int64-large :
    (n : ℕ)
    → 9223372036854775807 < n
    → n < 18446744073709551616
    → to_int64 n ≡ negsuc (18446744073709551615 - n)
unfolding to_int64
to_int64-large n h k =
    let e : n % 18446744073709551616 ≡ n = mod-eq_of_lt k in
    let f : ltb n 9223372036854775808 ≡ false = ground arith in rw (e, f) refl

-- Within one turn of the word, `wrap` is the identity, or off by 2 ^ 64.
pub wrap_inside : (e : ℤ) → IsInt64 e → wrap e ≡ e
unfolding wrap
wrap_inside (pos n) h = to_int64-small n (omega (arith, h))
wrap_inside (negsuc n) h =
    let r : n % 18446744073709551616 ≡ n = mod-eq_of_lt (omega (arith, h)) in
    rw r (
      to_int64-large (18446744073709551615 - n) (omega (arith, h)) (omega arith)
      ∙ ap negsuc (omega (arith, h)))

pub wrap_above :
    (n : ℕ)
    → 9223372036854775807 < n
    → n < 18446744073709551616
    → wrap (pos n) ≡ negsuc (18446744073709551615 - n)
unfolding wrap
wrap_above n h k = to_int64-large n h k

pub wrap_below :
    (n : ℕ)
    → 9223372036854775807 < n
    → n < 18446744073709551616
    → wrap (negsuc n) ≡ pos (18446744073709551615 - n)
unfolding wrap
wrap_below n h k =
    let r : n % 18446744073709551616 ≡ n = mod-eq_of_lt k in
    rw r (to_int64-small (18446744073709551615 - n) (omega arith))

pub to_int64-IsInt64 : (n : ℕ) → IsInt64 (to_int64 n)
unfolding to_int64
to_int64-IsInt64 n =
    let w = n % 18446744073709551616 in
    let small : w < 18446744073709551616 = omega arith in ground (arith, small)

pub wrap-IsInt64 : (e : ℤ) → IsInt64 (wrap e)
unfolding wrap
wrap-IsInt64 (pos n) = to_int64-IsInt64 n
wrap-IsInt64 (negsuc n) = to_int64-IsInt64 _
