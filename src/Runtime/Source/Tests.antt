-- ===== src/Runtime/Source/Tests.antt =====
-- pkg/runtime/source_task.go: ten records over four subtasks, and a barrier after every second one.
use tidemark.Prelude.{ℕ, ◌/◌, ◌<◌, ◌≡◌, pos, true, arith}
use tidemark.Runtime.Source.{source_range, max_barriers, new_barrier_generator}
use tidemark.Runtime.Source.Ranges.{Reads, source_range_divides}
use tidemark.Runtime.Source.Barriers.{checkpoint_ids, numbered}
use tidemark.Runtime.Source.Agreement.{span, checkpoint_ids_agree}

source_range_divides_example :
    (i : ℕ) × (i < 4) × Reads 10 4 i 7 × ((j : ℕ) → j < 4 → Reads 10 4 j 7 → j ≡ i)
source_range_divides_example = source_range_divides 10 4 7 (omega arith) (omega arith) (omega arith)

checkpoint_ids_agree_example :
    checkpoint_ids
      (span (source_range 10 4 1))
      (new_barrier_generator (pos 2) (max_barriers 10 4 (pos 2) true))
    ≡ numbered (10 / 4 / 2)
checkpoint_ids_agree_example =
    checkpoint_ids_agree 10 4 2 1 (omega arith) (omega arith) (omega arith) (omega arith)
