-- ===== src/Operators/Windows/Firing.antt =====
-- pkg/operators/window.go: a window fires at its last instant and is purged after its lateness.
use tidemark.Prelude.{
  ℕ, suc, ◌+◌, ◌-◌, ◌≡◌, ◌≤◌, ◌<◌, refl, ℤ, pos, negsuc, negate, pos_part, neg_part, ltb_ℤ, ◌≤ℤ◌,
  ◌<ℤ◌, max_int64, IsInt64, difference_lem, wrap, wrap_inside, wrap_above, true, false, ◌&&◌,
  if◌then◌else◌, Bool-cases, inl, inr, ◌⊎◌, ltb, arith, zero,
}
use tidemark.Prelude.Int.{difference}
use tidemark.Operators.Windows.{WindowCount, add_ceil, fire_time_of, is_purged}

-- `s` is `a + b`, or the greatest int64 if that is beyond it.
abbrev pub AddsUpTo : ℤ → ℕ → ℤ → Type 0
AddsUpTo a b s =
    IsInt64 s
    × ((pos_part s + neg_part a ≡ pos_part a + neg_part s + b)
        ⊎ ((s ≡ max_int64) × (9223372036854775807 + neg_part a < pos_part a + b)))

negate_parts : (b : ℕ) → (pos_part (negate b) ≡ 0) × (neg_part (negate b) ≡ b)
negate_parts zero = (refl, refl)
negate_parts (suc b) = (refl, refl)

-- The tests of `addCeil` on the wrapped sum of `e`.
ceil_cases :
    (a : ℤ) (b : ℕ) (e : ℤ)
    → IsInt64 a
    → b ≤ 9223372036854775807
    → pos_part e + neg_part a ≡ pos_part a + neg_part e + b
    → AddsUpTo a b (if ltb_ℤ (pos 0) (pos b) && ltb_ℤ (wrap e) a then max_int64 else wrap e)
ceil_cases a b (negsuc n) h le e =
    let i : IsInt64 (negsuc n) = (omega (arith, e, h), omega arith) in
    let up : ltb_ℤ (negsuc n) a ≡ false = ground (arith, e) in
    let same : (if ltb_ℤ (pos 0) (pos b) && false then max_int64 else negsuc n) ≡ negsuc n =
      ground arith in
    rw (wrap_inside (negsuc n) i, up, same) (i, inl e)
ceil_cases a b (pos n) h le e = elim (Bool-cases (ltb 9223372036854775807 n)) [
  | inr f ↦
      let i : IsInt64 (pos n) = (omega arith, ground (arith, f)) in
      let up : ltb_ℤ (pos n) a ≡ false = ground (arith, e) in
      let same : (if ltb_ℤ (pos 0) (pos b) && false then max_int64 else pos n) ≡ pos n =
        ground arith in
      rw (wrap_inside (pos n) i, up, same) (i, inl e)
  | inl f ↦
      let over : 9223372036854775807 < n = ground (arith, f) in
      let below : ltb_ℤ (negsuc (18446744073709551615 - n)) a ≡ true = ground (arith, e, h, over) in
      let some_b : ltb_ℤ (pos 0) (pos b) ≡ true = ground (arith, e, h, over) in
      rw (wrap_above n over (omega (arith, e, h)), below, some_b)
        ((omega arith, omega arith), inr (refl, omega (arith, e)))
]

-- `addCeil` of an int64 and a number that is not negative: the sum, or the greatest int64 if the sum
-- lies beyond it.
pub add_ceil_lem :
    (a : ℤ) (b : ℕ) → IsInt64 a → b ≤ 9223372036854775807 → AddsUpTo a b (add_ceil a b)
unfolding add_ceil
add_ceil_lem a b h le =
    ceil_cases a b (difference a (negate b)) h le
      (omega (arith, difference_lem a (negate b), negate_parts b))

AddsUpTo-grows : (a : ℤ) (b : ℕ) (s : ℤ) → IsInt64 a → AddsUpTo a b s → a ≤ℤ s
AddsUpTo-grows a b s h (i, inl e) = omega (arith, e)
AddsUpTo-grows a b s h (i, inr (e, over)) = rw e (omega (arith, h))

AddsUpTo-mono : (a : ℤ) (b c : ℕ) (s u : ℤ) → c ≤ b → AddsUpTo a b s → AddsUpTo a c u → u ≤ℤ s
AddsUpTo-mono a b c s u le (i, inl e) (j, inl f) = omega (arith, e, f)
AddsUpTo-mono a b c s u le (i, inr (e, over)) (j, f) = rw e (omega (arith, j))
AddsUpTo-mono a b c s u le (i, inl e) (j, inr (f, over)) = absurd (omega (arith, e, over, i))

-- A window whose state may be purged at a watermark has fired: its timer is due at that watermark, also
-- where its times lie beyond the int64s.
pub is_purged-fire_time_of :
    (w : WindowCount) (watermark start : ℤ)
    → IsInt64 start
    → w.size ≤ 9223372036854775807
    → w.allowed_lateness ≤ 9223372036854775807
    → is_purged w watermark start ≡ true
    → fire_time_of w start ≤ℤ watermark
unfolding is_purged fire_time_of
is_purged-fire_time_of w watermark start h sl ll p =
    let end = add_ceil start w.size in
    let ends = add_ceil_lem start w.size h sl in
    let fires = add_ceil_lem start (w.size - 1) h (omega arith) in
    let last = add_ceil_lem end w.allowed_lateness ends.0 ll in
    let late : add_ceil end w.allowed_lateness <ℤ watermark = ground (arith, p) in
    omega (
      arith,
      late,
      AddsUpTo-grows end w.allowed_lateness _ ends.0 last,
      AddsUpTo-mono start w.size (w.size - 1) end _ (omega arith) ends fires,
    )
