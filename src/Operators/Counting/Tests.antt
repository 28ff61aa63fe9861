-- ===== src/Operators/Counting/Tests.antt =====
-- pkg/operators/window.go: three inputs of an operator with windows of ten every five.
use tidemark.Prelude.{
  ◌≡◌, ◌≢◌, refl, ℤ, pos, ◌≤ℤ◌, ◌<ℤ◌, min_int64, none, List, [], ◌∷◌, ◌++◌, map, arith,
}
use tidemark.Prelude.Int.{wrap, to_int64, difference}
use mathlib.Core.List.{Memᴰ}
use tidemark.State.Keyed.{bytes_eq}
use tidemark.Operators.Windows.{
  windows_for, windows_from, floor_mod, sub_floor, add_ceil, fire_time_of,
}
use tidemark.Operators.Counting.Reference.{hits, occurrences}
use tidemark.Operators.Counting.Run.{report, run-complete}
use tidemark.Core.{Record}
use tidemark.Operators.Windows.{WindowCount}
use tidemark.Operators.Layout.{ok, timer_key, parse_timer_key}
use tidemark.Operators.Counting.{
  Counts, new_counts, set_watermark, process_element, process_watermark, collect_due_timers,
}
use tidemark.Operators.Layout.Keys.{parse_timer_key-timer_key}
use tidemark.Operators.Counting.Due.{timers_due, collect_due_timers_lem}
use tidemark.Operators.Counting.Invariant.{IsInRange, process_element-Fine}
use tidemark.Operators.Counting.Watermark.{Advances, process_watermark_lem}
use tidemark.Operators.Counting.Tracked.{Tracked}
use tidemark.Operators.Counting.Advance.{reported}
use tidemark.Operators.Counting.Run.{
  Input, element, watermark, run, records_of, last_watermark, Ascends, run-Tracked,
  new_counts-Tracked, run-reported,
}

abbrev sliding : WindowCount
sliding = record { size = 10; slide = 5; allowed_lateness = 0 }

sliding-IsInRange : IsInRange sliding
sliding-IsInRange = record { size = omega arith; lateness = omega arith }

-- A record of the key "a".
abbrev at_time : ℤ → Record
at_time t = record { key = 97 ∷ []; value = []; event_time = t }

abbrev three : List Input
three = element (at_time (pos 7)) ∷ watermark (pos 8) ∷ element (at_time (pos 12)) ∷ []

three-Ascends : Ascends three min_int64
unfolding Ascends
three-Ascends = (omega arith, omega arith, tt)

three_last : last_watermark three min_int64 ≤ℤ pos 16
unfolding last_watermark
three_last = omega arith

run-reported_example :
    let c = (run sliding three new_counts).1 in
    ((run sliding three new_counts).0 ≡ none)
    × ((process_watermark sliding (pos 16) c).0 ≡ none)
    × ((process_watermark sliding (pos 16) c).1.emitted
        ≡ c.emitted
          ++ map
              (reported sliding (records_of three []))
              (timers_due (pos 16) (set_watermark (pos 16) c.memory)))
run-reported_example =
    run-reported sliding three (pos 16) sliding-IsInRange three-Ascends (omega arith) three_last

run-Tracked_example :
    ((run sliding three new_counts).0 ≡ none)
    × Tracked sliding
        (last_watermark three min_int64)
        (records_of three [])
        (run sliding three new_counts).1
run-Tracked_example =
    run-Tracked sliding sliding-IsInRange three min_int64 [] new_counts three-Ascends
      (new_counts-Tracked sliding)

three-hits : hits sliding (97 ∷ []) (pos 5) (records_of three []) ≢ 0
unfolding hits occurrences records_of windows_for windows_from floor_mod sub_floor bytes_eq wrap
    to_int64 difference
three-hits h = absurd (omega (arith, h))

fires_at : fire_time_of sliding (pos 5) ≡ pos 14
unfolding fire_time_of add_ceil wrap to_int64 difference
fires_at = refl

three_ahead : last_watermark three min_int64 <ℤ fire_time_of sliding (pos 5)
unfolding last_watermark
three_ahead = rw fires_at (omega arith)

run-complete_example :
    Memᴰ
      (report sliding (records_of three []) (97 ∷ []) (pos 5))
      (process_watermark sliding (pos 16) (run sliding three new_counts).1).1.emitted
run-complete_example =
    run-complete sliding three (pos 16) (97 ∷ []) (pos 5) sliding-IsInRange three-Ascends
      (omega arith) (omega arith) three_ahead (rw fires_at (omega arith)) three-hits

-- After one record.
abbrev one_record : Counts
one_record = (process_element sliding (at_time (pos 7)) new_counts).1

process_watermark_lem_example :
    Advances sliding sliding-IsInRange
      (pos 16)
      one_record
      (process_watermark sliding (pos 16) one_record)
process_watermark_lem_example =
    process_watermark_lem sliding sliding-IsInRange (pos 16) one_record (omega arith)
      (process_element-Fine sliding (at_time (pos 7)) new_counts sliding-IsInRange
        (new_counts-Tracked sliding).formed).1

collect_due_timers_lem_example :
    collect_due_timers (pos 16) one_record.memory ≡ ok (timers_due (pos 16) one_record.memory)
collect_due_timers_lem_example =
    collect_due_timers_lem sliding (pos 16) one_record.memory
      (process_element-Fine sliding (at_time (pos 7)) new_counts sliding-IsInRange
        (new_counts-Tracked sliding).formed).1

parse_timer_key-timer_key_example :
    parse_timer_key (timer_key (pos 14) (97 ∷ []) (pos 5))
    ≡ ok (record { fire_time = pos 14; key = 97 ∷ []; window_start = pos 5 })
parse_timer_key-timer_key_example =
    parse_timer_key-timer_key (pos 14) (97 ∷ []) (pos 5) (omega arith) (omega arith)
