-- ===== src/Runtime/EventTime.antt =====
-- pkg/runtime/source_task.go: the watermarks that a source subtask puts among its records.
pub mod Clamping
pub mod Generator
mod Tests
use tidemark.Prelude.{
  ℕ, ◌+◌, ◌-◌, ◌≡◌, ◌≤◌, ◌<◌, refl, sym, ap, ◌∙◌, ◌⊎◌, inl, inr, ℤ, pos, negsuc, pos_part, neg_part,
  ◌≤ℤ◌, ◌<ℤ◌, ltb_ℤ, leb_ℤ, ltb, max_int64, min_int64, IsInt64, difference, difference_lem, wrap,
  wrap_inside, wrap_above, wrap_below, increment, Bool, true, false, ◌&&◌, Option, none, some, List,
  [], ◌∷◌, if◌then◌else◌, Bool-cases, arith,
}

-- The tests of `subFloor`, on the wrapped difference `d`.
abbrev pub clamp : ℤ → ℤ → ℤ → ℤ
clamp a b d =
    if ltb_ℤ b (pos 0) && ltb_ℤ d a
    then max_int64
    else if ltb_ℤ (pos 0) b && ltb_ℤ a d
    then min_int64
    else d

unfoldable pub sub_floor : ℤ → ℤ → ℤ
sub_floor a b = clamp a b (wrap (difference a b))

pub record WatermarkGenerator : Type 0 where
  pub interval_elements : ℤ
  pub max_out_of_orderness : ℤ
  pub since_last : ℤ
  pub max_event_time : ℤ
  pub last_emitted : ℤ

unfoldable pub new_watermark_generator : ℤ → ℤ → WatermarkGenerator
new_watermark_generator interval lag = record {
  interval_elements = interval;
  max_out_of_orderness = lag;
  since_last = pos 0;
  max_event_time = min_int64;
  last_emitted = min_int64;
}

abbrev pub candidate : WatermarkGenerator → ℤ
candidate g = sub_floor (sub_floor g.max_event_time g.max_out_of_orderness) (pos 1)

abbrev pub later : ℤ → ℤ → ℤ
later seen t = if ltb_ℤ seen t then t else seen

-- The end of `onRecord`, where an interval is over.
unfoldable pub emit_candidate : WatermarkGenerator → Option ℤ × WatermarkGenerator
emit_candidate g =
    if leb_ℤ (candidate g) g.last_emitted
    then (none, g)
    else (some (candidate g), record g { last_emitted = candidate g })

-- The element counted.
unfoldable pub count_element : WatermarkGenerator → Option ℤ × WatermarkGenerator
count_element g =
    if ltb_ℤ g.since_last g.interval_elements
    then (none, g)
    else emit_candidate (record g { since_last = pos 0 })

unfoldable pub observe : WatermarkGenerator → ℤ → Option ℤ × WatermarkGenerator
observe g t =
    let seen = record g { max_event_time = later g.max_event_time t } in
    if leb_ℤ g.interval_elements (pos 0)
    then (none, seen)
    else count_element (record seen { since_last = increment seen.since_last })
