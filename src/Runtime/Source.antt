-- ===== src/Runtime/Source.antt =====
-- pkg/runtime/source_task.go: how a source's offsets are divided, and where its subtasks put barriers
-- and watermarks. A count and a parallelism are natural numbers; the products are int64.
pub mod Ranges
pub mod Agreement
pub mod Barriers
pub mod Loop
mod Tests
use tidemark.Prelude.{
  ℕ, zero, suc, ◌+◌, ◌*◌, ◌/◌, ℤ, pos, negsuc, Bool, Option, none, some, List, [], ◌∷◌, ◌++◌,
  if◌then◌else◌, ltb_ℤ, leb_ℤ, eqb_ℤ, to_int64, quot, increment, ◌&&◌, not, true, false,
}

-- The offsets `[start, end)`.
pub record OffsetRange : Type 0 where
  pub start : ℤ
  pub end : ℤ

unfoldable pub source_range : ℕ → ℕ → ℕ → OffsetRange
source_range count parallelism index = record {
  start = quot (to_int64 (index * count)) parallelism;
  end = quot (to_int64 ((index + 1) * count)) parallelism;
}

abbrev pub unbounded_barriers : ℤ
unbounded_barriers = negsuc 0

unfoldable pub max_barriers : ℕ → ℕ → ℤ → Bool → ℤ
max_barriers count parallelism interval bounded =
    if not bounded
    then unbounded_barriers
    else if leb_ℤ interval (pos 0)
    then pos 0
    else pos (count / parallelism / magnitude interval)
  where
    -- The interval, which is positive here.
    magnitude : ℤ → ℕ
    magnitude (pos n) = n
    magnitude (negsuc n) = 0

pub record BarrierGenerator : Type 0 where
  pub interval_elements : ℤ
  pub max_barriers : ℤ
  pub since_last : ℤ
  pub injected : ℤ

unfoldable pub new_barrier_generator : ℤ → ℤ → BarrierGenerator
new_barrier_generator interval budget = record {
  interval_elements = interval;
  max_barriers = budget;
  since_last = pos 0;
  injected = pos 0;
}

-- The end of `onRecord`, with the element counted.
abbrev pub inject_due : BarrierGenerator → Option ℤ × BarrierGenerator
inject_due g = if ltb_ℤ g.since_last g.interval_elements then (none, g) else (
  some (increment g.injected),
  record g { since_last = pos 0; injected = increment g.injected },
)

unfoldable pub on_record : BarrierGenerator → Option ℤ × BarrierGenerator
on_record g =
    if leb_ℤ g.interval_elements (pos 0)
    then (none, g)
    else if not (eqb_ℤ g.max_barriers unbounded_barriers) && leb_ℤ g.max_barriers g.injected
    then (none, g)
    else inject_due (record g { since_last = increment g.since_last })
