-- ===== src/Runtime/Source/Agreement.antt =====
-- pkg/runtime/source_task.go: the subtasks of a source inject the same checkpoints.
use native.Mathlib.Nat.{div-mul-le_self, mul-le-mul_right, div-le_self}
use tidemark.Prelude.{
  ℕ, ◌*◌, ◌-◌, ◌/◌, ◌≤◌, ◌<◌, ◌≡◌, refl, pos, pos_part, true, false, arith, leb_ℤ,
}
use tidemark.Runtime.Source.Barriers.{checkpoint_ids, numbered, after-Counted, Counted-spent}
use tidemark.Runtime.Source.{OffsetRange, source_range, max_barriers, new_barrier_generator}
use tidemark.Runtime.Source.Ranges.{bound-step, source_range-bound}

budget-fits :
    (count p k : ℕ) → p * count ≤ 9223372036854775807 → 0 < p → count / p / k ≤ 9223372036854775807
budget-fits count p k h pp =
    omega (arith, div-le_self (count / p) k, div-le_self count p, mul-le-mul_right count pp)

max_barriers_bounded :
    (count p k : ℕ) → 0 < k → max_barriers count p (pos k) true ≡ pos (count / p / k)
unfolding max_barriers
max_barriers_bounded count p k h =
    let positive : leb_ℤ (pos k) (pos 0) ≡ false = ground arith in rw positive refl

-- The number of offsets in a range.
abbrev pub span : OffsetRange → ℕ
span r = pos_part r.end - pos_part r.start

-- While `parallelism * count` is an int64: every subtask of a bounded source injects the same
-- checkpoints over its own range, numbered from 1, and their number is the floor of
-- `count / parallelism` divided by the interval.
pub checkpoint_ids_agree :
    (count p k i : ℕ)
    → p * count ≤ 9223372036854775807
    → 0 < k
    → k ≤ 9223372036854775807
    → i < p
    → checkpoint_ids
        (span (source_range count p i))
        (new_barrier_generator (pos k) (max_barriers count p (pos k) true))
      ≡ numbered (count / p / k)
checkpoint_ids_agree count p k i h kp kl lt =
    let m = count / p / k in
    rw (max_barriers_bounded count p k kp, source_range-bound count p i lt h)
      (Counted-spent k m _ _ _
        (omega (arith, div-mul-le_self (count / p) k, bound-step count p i (omega arith)))
        (after-Counted k m _ kp kl (budget-fits count p k h (omega arith))))
