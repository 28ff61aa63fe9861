-- ===== src/Operators/Counting/Tracked.antt =====
-- pkg/operators/window.go: what holds between two calls, for the records that were processed so far.
use tidemark.Prelude.{
  ℕ, ◌+◌, ◌≡◌, refl, sym, ap, ◌∙◌, ℤ, pos, IsInt64, Bool, true, false, none, some, List, [], ◌∷◌,
  All, if◌then◌else◌, inl, inr, Bool-cases, arith,
}
use tidemark.Core.{Record}
use tidemark.State.Keyed.{Bytes, Memory, bytes_eq, get, put}
use tidemark.State.Keyed.Laws.{get-put_ne}
use tidemark.Operators.Windows.{WindowCount, windows_for, fire_time_of, is_purged}
use tidemark.Operators.Windows.Range.{windows_for-IsInt64}
use tidemark.Operators.Layout.{
  Parsed, ok, err, Timer, watermark_state_key, state_key, timer_key, parse_timer_key, encode_count,
}
use tidemark.Operators.Counting.{
  Counts, watermark_of, current_watermark, count_one, add_to_window, add_to_windows,
  process_element,
}
use tidemark.Operators.Layout.Keys.{parse_timer_key-timer_key}
use tidemark.Operators.Counting.Forms.{IsWellFormed, state-ne-timer, state-ne-mark, timer-ne-mark}
use tidemark.Operators.Counting.Invariant.{
  key_cases, current_count_lem, IsInRange, fire_time-IsInt64, add_to_window-Fine,
  add_to_windows-Fine,
}
use tidemark.Operators.Counting.Watermark.{and_then_good}
use tidemark.Operators.Counting.Reference.{
  hits, occurrences, times, counted, add_to_windows-counted,
}

timer_parts : Parsed Timer → ℤ × ℤ
timer_parts (ok t) = (t.fire_time, t.window_start)
timer_parts (err e) = (pos 0, pos 0)

pub timer_key-times :
    (f g : ℤ) (k j : Bytes) (a b : ℤ)
    → IsInt64 f
    → IsInt64 g
    → IsInt64 a
    → IsInt64 b
    → timer_key f k a ≡ timer_key g j b
    → (f ≡ g) × (a ≡ b)
unfolding timer_parts
timer_key-times f g k j a b hf hg ha hb e =
    let p = ap timer_parts (
      sym (parse_timer_key-timer_key f k a hf ha)
      ∙ ap parse_timer_key e
      ∙ parse_timer_key-timer_key g j b hg hb) in
    (ap (λ (t : ℤ × ℤ). t.0) p, ap (λ (t : ℤ × ℤ). t.1) p)

current_kept :
    (m m' : Memory)
    → get watermark_state_key m' ≡ get watermark_state_key m
    → current_watermark m' ≡ current_watermark m
unfolding current_watermark
current_kept m m' e = ap watermark_of e

-- Every timer is that of a window that is not to purge.
abbrev pub IsLive : WindowCount → ℤ → Memory → Type 0
IsLive w x m =
    (key : Bytes) (start : ℤ) (v : Bytes)
    → IsInt64 start
    → IsInt64 (fire_time_of w start)
    → get (timer_key (fire_time_of w start) key start) m ≡ some v
    → is_purged w x start ≡ false

-- At the watermark `x`, after the records `seen`, the latest first.
pub record Tracked (w : WindowCount) (x : ℤ) (seen : List Record) (c : Counts) : Type 0 where
  pub formed : IsWellFormed w c.memory
  pub instant : IsInt64 x
  pub current : current_watermark c.memory ≡ ok x
  pub live : IsLive w x c.memory
  pub counts :
      (key : Bytes) (start : ℤ)
      → IsInt64 start
      → is_purged w x start ≡ false
      → counted c key start ≡ times (hits w key start seen)

counted_if : (b : Bool) (a n : ℕ) → (if b then a else 0) + n ≡ (if b then a + n else n)
counted_if true a n = refl
counted_if false a n = omega arith

module _ (w : WindowCount) (r : IsInRange w) (x : ℤ) where
  abbrev Keeps : Memory → Memory → Type 0
  Keeps m m' =
      (get watermark_state_key m' ≡ get watermark_state_key m) × (IsLive w x m → IsLive w x m')

  count_one-Keeps :
      (key : Bytes) (start n : ℤ) (c : Counts)
      → IsInt64 start
      → is_purged w x start ≡ false
      → Keeps c.memory (count_one w key start c n).1.memory
  unfolding count_one
  count_one-Keeps key start n c hs live =
      let k = state_key key start in
      let f = fire_time_of w start in
      let v = encode_count _ in
      let m = put k v c.memory in
      (
        get-put_ne watermark_state_key (timer_key f key start) [] m
              (λ p. timer-ne-mark key f start (sym p))
            ∙ get-put_ne watermark_state_key k v c.memory (λ p. state-ne-mark key start (sym p)),
        λ before key' start' u hs' hf' e.
            key_cases (timer_key (fire_time_of w start') key' start') (timer_key f key start)
              (λ same.
                let starts : start' ≡ start =
                  (timer_key-times (fire_time_of w start') f key' key start' start hf'
                    (fire_time-IsInt64 w start r hs) hs' hs same).1 in
                ap (is_purged w x) starts ∙ live)
              (λ other. before key' start' u hs' hf' (
                sym (
                  get-put_ne (timer_key (fire_time_of w start') key' start') (timer_key f key start)
                    [] m other
                  ∙ get-put_ne (timer_key (fire_time_of w start') key' start') k v c.memory
                      (λ p. state-ne-timer key key' start (fire_time_of w start') start' (sym p)))
                ∙ e)),
      )

  add_to_window-Keeps :
      (key : Bytes) (start : ℤ) (c : Counts)
      → IsInt64 start
      → IsWellFormed w c.memory
      → Keeps c.memory (add_to_window w x key start c).1.memory
  unfolding add_to_window
  add_to_window-Keeps key start c hs wf =
      let (n, e) = current_count_lem w c.memory key start wf in
      elim (Bool-cases (is_purged w x start)) [
        | inl late ↦ rw late (refl, λ before. before)
        | inr live ↦ rw (live, e) (count_one-Keeps key start n c hs live)
      ]

  add_to_windows-Keeps :
      (key : Bytes) (starts : List ℤ) (c : Counts)
      → All IsInt64 starts
      → IsWellFormed w c.memory
      → Keeps c.memory (add_to_windows w x key starts c).1.memory
  unfolding add_to_windows
  add_to_windows-Keeps key [] c hss wf = (refl, λ before. before)
  add_to_windows-Keeps key (s ∷ starts) c hss wf =
      let o = add_to_window w x key s c in
      let (good, wf') = add_to_window-Fine w x key s c r hss.0 wf in
      let one = add_to_window-Keeps key s c hss.0 wf in
      let rest = add_to_windows-Keeps key starts o.1 hss.1 wf' in
      rw (and_then_good o (add_to_windows w x key starts) good)
        (rest.0 ∙ one.0, λ before. rest.1 (one.1 before))

  -- A record: every window of its key that is live counts it as often as it is one of its windows.
  pub process_element-Tracked :
      (rec : Record) (seen : List Record) (c : Counts)
      → Tracked w x seen c
      → ((process_element w rec c).0 ≡ none) × Tracked w x (rec ∷ seen) (process_element w rec c).1
  unfolding process_element hits
  process_element-Tracked rec seen c t =
      let starts = windows_for w rec.event_time in
      let hss = windows_for-IsInt64 w rec.event_time in
      let (good, wf) = add_to_windows-Fine w x rec.key starts c r hss t.formed in
      let keeps = add_to_windows-Keeps rec.key starts c hss t.formed in
      rw t.current (
        good,
        record {
          formed = wf;
          instant = t.instant;
          current = current_kept c.memory _ keeps.0 ∙ t.current;
          live = keeps.1 t.live;
          counts = λ key start hs live.
              add_to_windows-counted w x rec.key key start starts (hits w key start seen) c r hs hss
                live t.formed (t.counts key start hs live)
              ∙ ap times (
                  counted_if (bytes_eq rec.key key) (occurrences start starts)
                    (hits w key start seen));
        },
      )
