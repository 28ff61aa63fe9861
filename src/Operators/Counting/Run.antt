-- ===== src/Operators/Counting/Run.antt =====
-- pkg/operators/window.go: whole runs of the operator.
use tidemark.Prelude.{
  ◌≡◌, ◌≢◌, refl, sym, ap, ◌∙◌, subst, ℤ, ◌≤ℤ◌, ◌<ℤ◌, IsInt64, min_int64, none, List, [], ◌∷◌, ◌++◌,
  map, inl, arith,
}
use mathlib.Core.List.{Memᴰ}
use mathlib.Core.List.Memᴰ
use tidemark.State.Keyed.{Bytes}
use tidemark.Operators.Layout.{encode_count}
use tidemark.Operators.Counting.{DueTimer}
use tidemark.Operators.Counting.Armed.{
  IsArmed, process_element-IsArmed, process_watermark-IsArmed, reached_due,
}
use tidemark.Core.{Record}
use tidemark.Operators.Windows.{WindowCount, fire_time_of}
use tidemark.State.Keyed.{get}
use tidemark.Operators.Counting.Firing.{count_at}
use tidemark.Operators.Counting.{
  watermark_of, Counts, new_counts, Outcome, and_then, current_watermark, set_watermark,
  process_element, process_watermark,
}
use tidemark.Operators.Counting.Due.{timers_due}
use tidemark.Operators.Counting.Invariant.{IsInRange}
use tidemark.Operators.Counting.Watermark.{and_then_good, process_watermark_lem}
use tidemark.Operators.Counting.Reference.{hits, times}
use tidemark.Operators.Counting.Tracked.{Tracked, process_element-Tracked}
use tidemark.Operators.Counting.Advance.{process_watermark-Tracked, reported, fired-reported}

-- What a task gives to its operator.
pub data Input : Type 0 where
  element : Record → Input
  watermark : ℤ → Input

unfoldable pub process : WindowCount → Input → Counts → Outcome
process w (element rec) c = process_element w rec c
process w (watermark wm) c = process_watermark w wm c

unfoldable pub run : WindowCount → List Input → Counts → Outcome
run w [] c = (none, c)
run w (i ∷ inputs) c = and_then (process w i c) (run w inputs)

-- The records of the inputs, the latest first, before `seen`.
unfoldable pub records_of : List Input → List Record → List Record
records_of [] seen = seen
records_of (element rec ∷ inputs) seen = records_of inputs (rec ∷ seen)
records_of (watermark wm ∷ inputs) seen = records_of inputs seen

unfoldable pub last_watermark : List Input → ℤ → ℤ
last_watermark [] x = x
last_watermark (element rec ∷ inputs) x = last_watermark inputs x
last_watermark (watermark wm ∷ inputs) x = last_watermark inputs wm

-- Watermarks that never go back, from `x` on.
unfoldable pub Ascends : List Input → ℤ → Type 0
Ascends [] x = Unit
Ascends (element rec ∷ inputs) x = Ascends inputs x
Ascends (watermark wm ∷ inputs) x = IsInt64 wm × (x ≤ℤ wm) × Ascends inputs wm

-- A run of an operator whose settings are int64s, with watermarks that never go back and from a
-- state that is tracked, has no error and ends in one: the state is well-formed, it holds the last
-- watermark, every timer is that of a window that is not to purge, and the count of every such
-- window is the number of the records so far with its key that are in it, as an int64 that wraps.
pub run-Tracked :
    (w : WindowCount) (r : IsInRange w) (inputs : List Input) (x : ℤ) (seen : List Record)
    (c : Counts)
    → Ascends inputs x
    → Tracked w x seen c
    → ((run w inputs c).0 ≡ none)
      × Tracked w (last_watermark inputs x) (records_of inputs seen) (run w inputs c).1
unfolding run process records_of last_watermark Ascends
run-Tracked w r [] x seen c a t = (refl, t)
run-Tracked w r (element rec ∷ inputs) x seen c a t =
    let (good, t') = process_element-Tracked w r x rec seen c t in
    rw (and_then_good (process_element w rec c) (run w inputs) good)
      (run-Tracked w r inputs x (rec ∷ seen) (process_element w rec c).1 a t')
run-Tracked w r (watermark wm ∷ inputs) x seen c a t =
    let (good, t') = process_watermark-Tracked w r x wm seen c a.0 a.1 t in
    rw (and_then_good (process_watermark w wm c) (run w inputs) good)
      (run-Tracked w r inputs wm seen (process_watermark w wm c).1 a.2 t')

-- The operator before its first input.
pub new_counts-Tracked : (w : WindowCount) → Tracked w min_int64 [] new_counts
unfolding current_watermark watermark_of get hits times count_at
new_counts-Tracked w = record {
  formed = record { sorted = tt; formed = λ k v e. absurd (cc (e)) };
  instant = omega arith;
  current = refl;
  live = λ key start v hs hf e. absurd (cc (e));
  counts = λ key start hs p. refl;
}

-- A run from a new operator whose settings are int64s, with watermarks that never go back, has no
-- error, and a watermark behind it that does not go back has none either. This one sends, for each
-- timer that is due, in order, the number of the records of the run that have the timer's key and
-- are in its window, as an int64 that wraps.
pub run-reported :
    (w : WindowCount) (inputs : List Input) (wm : ℤ)
    → IsInRange w
    → Ascends inputs min_int64
    → IsInt64 wm
    → last_watermark inputs min_int64 ≤ℤ wm
    → let c = (run w inputs new_counts).1 in
      ((run w inputs new_counts).0 ≡ none)
      × ((process_watermark w wm c).0 ≡ none)
      × ((process_watermark w wm c).1.emitted
          ≡ c.emitted
            ++ map (reported w (records_of inputs [])) (timers_due wm (set_watermark wm c.memory)))
run-reported w inputs wm r a h le =
    let (good, t) = run-Tracked w r inputs min_int64 [] new_counts a (new_counts-Tracked w) in
    let c = (run w inputs new_counts).1 in
    let s = process_watermark_lem w r wm c h t.formed in
    (good, s.good, s.emitted ∙ ap (λ sent. c.emitted ++ sent) (fired-reported w r _ wm _ c h t))

run-IsArmed :
    (w : WindowCount) (r : IsInRange w) (inputs : List Input) (x : ℤ) (seen : List Record)
    (c : Counts)
    → Ascends inputs x
    → Tracked w x seen c
    → IsArmed w x seen c.memory
    → IsArmed w (last_watermark inputs x) (records_of inputs seen) (run w inputs c).1.memory
unfolding run process records_of last_watermark Ascends
run-IsArmed w r [] x seen c a t m = m
run-IsArmed w r (element rec ∷ inputs) x seen c a t m =
    let (good, t') = process_element-Tracked w r x rec seen c t in
    rw (and_then_good (process_element w rec c) (run w inputs) good) (
      run-IsArmed w r inputs x (rec ∷ seen) (process_element w rec c).1 a t'
        (process_element-IsArmed w r x rec seen c t m))
run-IsArmed w r (watermark wm ∷ inputs) x seen c a t m =
    let (good, t') = process_watermark-Tracked w r x wm seen c a.0 a.1 t in
    rw (and_then_good (process_watermark w wm c) (run w inputs) good) (
      run-IsArmed w r inputs wm seen (process_watermark w wm c).1 a.2 t'
        (process_watermark-IsArmed w r x wm seen c t a.0 a.1 m))

new_counts-IsArmed : (w : WindowCount) → IsArmed w min_int64 [] new_counts.memory
unfolding IsArmed hits
new_counts-IsArmed w = λ key start hs h. inl refl

-- What a window of a key is to send after the records `seen`.
abbrev pub report : WindowCount → List Record → Bytes → ℤ → Record
report w seen key start = record {
  key = key;
  value = encode_count (times (hits w key start seen));
  event_time = fire_time_of w start;
}

as_report :
    (w : WindowCount) (seen : List Record) (t : DueTimer)
    → reported w seen t ≡ report w seen t.key t.window_start
unfolding reported
as_report w seen t = refl

-- No window is forgotten: in a run from a new operator, whose settings are int64s, with watermarks
-- that never go back, when a watermark is the first to reach the last instant of a window that has
-- records of a key, what was sent behind it has a record with that key, that instant, and the
-- number of those records as an int64 that wraps.
pub run-complete :
    (w : WindowCount) (inputs : List Input) (wm : ℤ) (key : Bytes) (start : ℤ)
    → IsInRange w
    → Ascends inputs min_int64
    → IsInt64 wm
    → IsInt64 start
    → last_watermark inputs min_int64 <ℤ fire_time_of w start
    → fire_time_of w start ≤ℤ wm
    → hits w key start (records_of inputs []) ≢ 0
    → Memᴰ
        (report w (records_of inputs []) key start)
        (process_watermark w wm (run w inputs new_counts).1).1.emitted
run-complete w inputs wm key start r a h hs ahead reached some_hits =
    let (good, t) = run-Tracked w r inputs min_int64 [] new_counts a (new_counts-Tracked w) in
    let armed =
      run-IsArmed w r inputs min_int64 [] new_counts a (new_counts-Tracked w)
        (new_counts-IsArmed w) in
    let c = (run w inputs new_counts).1 in
    let s = process_watermark_lem w r wm c h t.formed in
    let due = reached_due w r _ wm _ c t armed key start hs ahead reached some_hits in
    let sent = s.emitted ∙ ap (λ more. c.emitted ++ more) (fired-reported w r _ wm _ c h t) in
    subst (Memᴰ (report w (records_of inputs []) key start)) (sym sent) (
      Memᴰ.append_right c.emitted (
        Memᴰ.cast (sym (as_report w (records_of inputs []) _))
          (Memᴰ.map (reported w (records_of inputs [])) due)))
