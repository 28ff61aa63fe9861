-- ===== src/Runtime/EventTime/Tests.antt =====
-- pkg/runtime/source_task.go: records that come up to two milliseconds late.
use tidemark.Prelude.{
  ◌≡◌, ℤ, pos, List, [], ◌∷◌, ◌<ℤ◌, min_int64, max_int64, IsInt64, difference, arith,
}
use tidemark.Core.{Record}
use tidemark.Runtime.Gate.Flow.{OnTime}
use tidemark.Runtime.EventTime.{sub_floor, new_watermark_generator}
use tidemark.Runtime.EventTime.Clamping.{sub_floor_lem}
use tidemark.Runtime.EventTime.Generator.{Lagging, with_watermarks, with_watermarks-OnTime}

sub_floor_lem_example :
    let e = difference min_int64 (pos 3) in
    (IsInt64 e → sub_floor min_int64 (pos 3) ≡ e)
    × (e <ℤ min_int64 → sub_floor min_int64 (pos 3) ≡ min_int64)
    × (max_int64 <ℤ e → sub_floor min_int64 (pos 3) ≡ max_int64)
sub_floor_lem_example =
    sub_floor_lem min_int64 (pos 3) (omega arith, omega arith) (omega arith, omega arith)

abbrev at : ℤ → Record
at t = record { key = []; value = []; event_time = t }

abbrev late : List Record
late = at (pos 5) ∷ at (pos 3) ∷ at (pos 9) ∷ at (pos 7) ∷ []

late-Lagging : Lagging 2 min_int64 late
late-Lagging = (
  omega arith,
  omega arith,
  omega arith,
  (
    omega arith,
    omega arith,
    omega arith,
    (omega arith, omega arith, omega arith, (omega arith, omega arith, omega arith, tt)),
  ),
)

with_watermarks-OnTime_example :
    OnTime min_int64 (with_watermarks (new_watermark_generator (pos 1) (pos 2)) late)
with_watermarks-OnTime_example = with_watermarks-OnTime (pos 1) 2 late (omega arith) late-Lagging
