-- ===== src/Operators/Counting.antt =====
-- pkg/operators/window.go: what WindowCount does with its keyed state. A window of a key has an entry
-- with its count, and until it fires another, a timer, under a key that sorts by fire time. `emitted`
-- is what the operator has given to its context.
pub mod Forms
pub mod Due
pub mod Reference
pub mod Invariant
pub mod Firing
pub mod Purging
pub mod Sweep
pub mod Watermark
pub mod Tracked
pub mod Advance
pub mod Armed
pub mod Run
mod Tests
use tidemark.Prelude.{
  zero, ◌==◌, ℤ, pos, min_int64, ltb_ℤ, increment, Bool, true, false, Option, none, some, List, [],
  ◌∷◌, ◌++◌, length, ltb, if◌then◌else◌,
}
use tidemark.Core.{Record}
use tidemark.State.Encoding.{encode_ordered_int64, decode_ordered_int64}
use tidemark.State.Keyed.{
  Bytes, Memory, new_memory, get, put, delete, iterate, prefix_user_state, prefix_timer,
}
use tidemark.Operators.Windows.{WindowCount, windows_for, fire_time_of, is_purged}
use tidemark.Operators.Layout.{
  WindowError, watermark_too_short, empty_state_key, fired_without_state, Parsed, ok, err,
  number_or, watermark_state_key, state_key, timer_key, window_start_of, Timer, parse_timer_key,
  encode_count, decode_count,
}

-- The operator's state between two calls.
pub record Counts : Type 0 where
  pub memory : Memory
  pub dropped : ℤ
  pub emitted : List Record

abbrev pub new_counts : Counts
new_counts = record { memory = new_memory; dropped = pos 0; emitted = [] }

-- A call that may fail: its error, and the state that it leaves.
abbrev pub Outcome : Type 0
Outcome = Option WindowError × Counts

abbrev pub and_then : Outcome → (Counts → Outcome) → Outcome
and_then (none, c) next = next c
and_then (some e, c) next = (some e, c)

abbrev pub with_parsed : {A : Type 0} → Parsed A → Counts → (A → Outcome) → Outcome
with_parsed (ok a) c next = next a
with_parsed (err e) c next = (some e, c)

pub watermark_of : Option Bytes → Parsed ℤ
unfolding number_or
watermark_of none = ok min_int64
watermark_of (some v) =
    if ltb (length v) 8
    then err (watermark_too_short (length v))
    else number_or (decode_ordered_int64 v) (watermark_too_short (length v))

unfoldable pub current_watermark : Memory → Parsed ℤ
unfolding watermark_of
current_watermark m = watermark_of (get watermark_state_key m)

unfoldable pub set_watermark : ℤ → Memory → Memory
set_watermark wm m = put watermark_state_key (encode_ordered_int64 wm) m

count_or_zero : Option Bytes → Parsed ℤ
count_or_zero none = ok (pos 0)
count_or_zero (some v) = decode_count v

unfoldable pub current_count : Bytes → Memory → Parsed ℤ
unfolding count_or_zero
current_count k m = count_or_zero (get k m)

-- The count of the window, and its timer.
count_one : WindowCount → Bytes → ℤ → Counts → ℤ → Outcome
count_one w key start c count =
    let m = put (state_key key start) (encode_count (increment count)) c.memory in
    (none, record c { memory = put (timer_key (fire_time_of w start) key start) [] m })

-- One turn of ProcessElement's loop.
pub add_to_window : WindowCount → ℤ → Bytes → ℤ → Counts → Outcome
unfolding count_one
add_to_window w watermark key start c =
    if is_purged w watermark start
    then (none, record c { dropped = increment c.dropped })
    else with_parsed (current_count (state_key key start) c.memory) c (count_one w key start c)

unfoldable pub add_to_windows : WindowCount → ℤ → Bytes → List ℤ → Counts → Outcome
unfolding add_to_window
add_to_windows w watermark key [] c = (none, c)
add_to_windows w watermark key (start ∷ starts) c =
    and_then (add_to_window w watermark key start c) (add_to_windows w watermark key starts)

unfoldable pub process_element : WindowCount → Record → Counts → Outcome
process_element w rec c =
    with_parsed (current_watermark c.memory) c
      λ watermark. add_to_windows w watermark rec.key (windows_for w rec.event_time) c

pub record DueTimer : Type 0 where
  pub state_key : Bytes
  pub key : Bytes
  pub window_start : ℤ

pub record Scan : Type 0 where
  pub due : List DueTimer
  pub scan_err : Option WindowError

-- A timer that is parsed, as long as it is due.
note_timer : ℤ → Bytes → Parsed Timer → Memory → Scan → Bool × Memory × Scan
note_timer wm k (err e) m s = (false, m, record s { scan_err = some e })
note_timer wm k (ok t) m s = if ltb_ℤ wm t.fire_time then (false, m, s) else (
  true,
  m,
  record s {
    due = s.due ++ (record { state_key = k; key = t.key; window_start = t.window_start } ∷ []);
  },
)

collect_visit : ℤ → Bytes → Bytes → Memory → Scan → Bool × Memory × Scan
unfolding note_timer
collect_visit wm [] v m s = (false, m, record s { scan_err = some empty_state_key })
collect_visit wm (b ∷ k) v m s =
    if ltb b prefix_timer
    then (true, m, s)
    else if ltb prefix_timer b
    then (false, m, s)
    else note_timer wm (b ∷ k) (parse_timer_key (b ∷ k)) m s

collected : Scan → Parsed (List DueTimer)
collected s = elim s.scan_err [ none ↦ ok s.due | some e ↦ err e ]

unfoldable pub collect_due_timers : ℤ → Memory → Parsed (List DueTimer)
unfolding collect_visit collected
collect_due_timers wm m =
    collected (iterate (collect_visit wm) m (record { due = []; scan_err = none })).1

emit : WindowCount → Bytes → ℤ → Counts → ℤ → Outcome
emit w key start c count = (
  none,
  record c {
    emitted =
        c.emitted
        ++ (record { key = key; value = encode_count count; event_time = fire_time_of w start }
            ∷ []);
  },
)

fire_value : WindowCount → Bytes → ℤ → Counts → Option Bytes → Outcome
unfolding emit
fire_value w key start c none = (some (fired_without_state start key), c)
fire_value w key start c (some v) = with_parsed (decode_count v) c (emit w key start c)

unfoldable pub fire : WindowCount → Bytes → ℤ → Counts → Outcome
unfolding fire_value
fire w key start c = fire_value w key start c (get (state_key key start) c.memory)

unfoldable pub fire_all : WindowCount → List DueTimer → Counts → Outcome
fire_all w [] c = (none, c)
fire_all w (t ∷ ts) c =
    and_then (fire w t.key t.window_start (record c { memory = delete t.state_key c.memory }))
      (fire_all w ts)

-- A window's entry, behind its start.
purge_entry :
    WindowCount
    → ℤ
    → Bytes
    → Parsed ℤ
    → Memory
    → Option WindowError
    → Bool × Memory × Option WindowError
purge_entry w watermark k (err e) m s = (false, m, some e)
purge_entry w watermark k (ok start) m s =
    (true, if is_purged w watermark start then delete k m else m, s)

pub purge_visit :
    WindowCount
    → ℤ
    → Bytes
    → Bytes
    → Memory
    → Option WindowError
    → Bool × Memory × Option WindowError
unfolding purge_entry
purge_visit w watermark [] v m s = (false, m, some empty_state_key)
purge_visit w watermark (b ∷ k) v m s =
    if b == prefix_user_state
    then purge_entry w watermark (b ∷ k) (window_start_of (b ∷ k)) m s
    else (false, m, s)

unfoldable pub purge : WindowCount → ℤ → Counts → Outcome
unfolding purge_visit
purge w watermark c =
    let r = iterate (purge_visit w watermark) c.memory none in (r.1, record c { memory = r.0 })

unfoldable pub process_watermark : WindowCount → ℤ → Counts → Outcome
process_watermark w wm c =
    let m = set_watermark wm c.memory in
    with_parsed (collect_due_timers wm m) (record c { memory = m })
      λ due. and_then (fire_all w due (record c { memory = m })) (purge w wm)
