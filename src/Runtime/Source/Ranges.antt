-- ===== src/Runtime/Source/Ranges.antt =====
-- pkg/runtime/source_task.go: the ranges of a source's subtasks divide its offsets.
use native.Mathlib.Nat.{le-div_iff_mul-le, mul-div_cancel_left, mul-le-mul_right, div-mul-le_self}
use tidemark.Prelude.{
  ℕ, zero, suc, ◌+◌, ◌*◌, ◌/◌, ◌≤◌, ◌<◌, ◌≡◌, ◌↔◌, ap, pos, ◌≤ℤ◌, ◌<ℤ◌, ltb, Bool-cases, inl, inr,
  to_int64-small, arith,
}
use tidemark.Runtime.Source.{source_range}

-- The `i`-th of the bounds between the ranges.
abbrev pub bound : ℕ → ℕ → ℕ → ℕ
bound count p i = (i * count) / p

-- No product overflows: a range is given by two bounds.
pub source_range-bound :
    (count p i : ℕ)
    → i < p
    → p * count ≤ 9223372036854775807
    → source_range count p i
      ≡ record { start = pos (bound count p i); end = pos (bound count p (suc i)) }
unfolding source_range
source_range-bound count p i lt h =
    let le : suc i * count ≤ p * count = mul-le-mul_right count lt in
    let a = to_int64-small (i * count) (omega arith) in
    let b = to_int64-small ((i + 1) * count) (omega arith) in
    rw (a, b)
      (ap (λ n. record { start = pos (bound count p i); end = pos (n * count / p) }) (omega arith))

-- Every range is at least as long as the floor of the count by the parallelism.
pub bound-step : (count p i : ℕ) → 0 < p → bound count p i + count / p ≤ bound count p (suc i)
bound-step count p i h =
    (le-div_iff_mul-le h).1 (omega (arith, div-mul-le_self (i * count) p, div-mul-le_self count p))

bound_mono : (count p i j : ℕ) → 0 < p → i ≤ j → bound count p i ≤ bound count p j
bound_mono count p i j h le =
    (le-div_iff_mul-le h).1
      (omega (arith, div-mul-le_self (i * count) p, mul-le-mul_right count le))

-- Between two bounds of a sequence, there is a step of it around every number.
step_around :
    (f : ℕ → ℕ) (p n : ℕ) → f 0 ≤ n → n < f p → (i : ℕ) × (i < p) × (f i ≤ n) × (n < f (suc i))
step_around f zero n lo hi = absurd (omega arith)
step_around f (suc p) n lo hi = elim (Bool-cases (ltb n (f p))) [
  | inl e ↦ let (i, lt, a, b) = step_around f p n lo (ground (arith, e)) in (i, omega arith, a, b)
  | inr e ↦ (p, omega arith, ground (arith, e), hi)
]

-- Whether a subtask's range has an offset.
abbrev pub Reads : ℕ → ℕ → ℕ → ℕ → Type 0
Reads count p i n =
    ((source_range count p i).start ≤ℤ pos n) × (pos n <ℤ (source_range count p i).end)

Reads-bounds :
    (count p i n : ℕ)
    → i < p
    → p * count ≤ 9223372036854775807
    → Reads count p i n ↔ ((bound count p i ≤ n) × (n < bound count p (suc i)))
Reads-bounds count p i n lt h = rw (source_range-bound count p i lt h) (ground arith)

same_step :
    (count p n j i : ℕ)
    → 0 < p
    → (bound count p j ≤ n) × (n < bound count p (suc j))
    → (bound count p i ≤ n) × (n < bound count p (suc i))
    → j ≡ i
same_step count p n j i pp a b = elim (Bool-cases (ltb j i)) [
  | inl e ↦ absurd (omega (arith, a, b, bound_mono count p (suc j) i pp (ground (arith, e))))
  | inr e ↦ elim (Bool-cases (ltb i j)) [
    | inl f ↦ absurd (omega (arith, a, b, bound_mono count p (suc i) j pp (ground (arith, f))))
    | inr f ↦ ground (arith, e, f)
  ]
]

-- While `parallelism * count` is an int64, every offset of a source is in the range of exactly one
-- of its subtasks.
pub source_range_divides :
    (count p n : ℕ)
    → p * count ≤ 9223372036854775807
    → n < count
    → 0 < p
    → (i : ℕ) × (i < p) × Reads count p i n × ((j : ℕ) → j < p → Reads count p j n → j ≡ i)
source_range_divides count p n h lt pp =
    let (i, il, a, b) =
      step_around (bound count p) p n (omega arith) (rw (mul-div_cancel_left count pp) lt) in
    (
      i,
      il,
      (Reads-bounds count p i n il h).1 (a, b),
      λ j jl r.
          let (c, d) = (Reads-bounds count p j n jl h).0 r in
          same_step count p n j i pp (c, d) (a, b),
    )
