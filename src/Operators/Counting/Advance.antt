-- ===== src/Operators/Counting/Advance.antt =====
-- pkg/operators/window.go: a watermark keeps `Tracked`, and what it sends are the records' own counts.
use tidemark.Prelude.{
  ◌≡◌, ◌≢◌, refl, sym, ap, ◌∙◌, ℤ, ◌≤ℤ◌, IsInt64, false, none, some, List, [], ◌∷◌, map, All, inl,
  inr, Bool-cases, arith,
}
use tidemark.Core.{Record}
use tidemark.State.Encoding.{encode_ordered_int64}
use tidemark.State.Keyed.{Bytes, Memory, get, delete}
use tidemark.State.Keyed.Laws.{get-put_self, get-put_ne, get-delete_ne}
use tidemark.Operators.Windows.{WindowCount, fire_time_of, is_purged}
use tidemark.Operators.Layout.{ok, watermark_state_key, state_key, timer_key, encode_count}
use tidemark.Operators.Counting.{
  DueTimer, Counts, Outcome, watermark_of, current_watermark, set_watermark, process_watermark,
}
use tidemark.Operators.Layout.Keys.{state_key-injective}
use tidemark.Operators.Counting.Forms.{state-ne-timer, state-ne-mark, timer-ne-mark}
use tidemark.Operators.Counting.Invariant.{watermark_read, IsInRange}
use tidemark.Operators.Counting.Due.{timers_due}
use tidemark.Operators.Counting.Firing.{IsReady, fired, count_at, delete_keys, All-delete}
use tidemark.Operators.Counting.Purging.{timers_due-All, timers_due-IsReady}
use tidemark.Operators.Counting.Sweep.{not_purged}
use tidemark.Operators.Counting.Watermark.{
  Advances, process_watermark_lem, set_watermark-IsWellFormed,
}
use tidemark.Operators.Counting.Reference.{hits, times}
use tidemark.Operators.Counting.Tracked.{Tracked}

-- What is not under the key of a timer stays.
delete_keys_kept :
    (j : Bytes) (ts : List DueTimer) (m : Memory)
    → ((f : ℤ) (key : Bytes) (start : ℤ) → j ≢ timer_key f key start)
    → All (IsReady m) ts
    → get j (delete_keys ts m) ≡ get j m
unfolding delete_keys
delete_keys_kept j [] m ne a = refl
delete_keys_kept j (t ∷ ts) m ne a =
    delete_keys_kept j ts (delete t.state_key m) ne (All-delete m t ts a.0 a.1)
    ∙ get-delete_ne j t.state_key m (λ p. ne a.0.fire_time t.key t.window_start (p ∙ a.0.shape))

module _ (w : WindowCount) (r : IsInRange w) (x wm : ℤ) (seen : List Record) (c : Counts)
    (t : Tracked w x seen c) where
  before_sweep :
      (j : Bytes)
      → IsInt64 wm
      → ((f : ℤ) (key : Bytes) (start : ℤ) → j ≢ timer_key f key start)
      → get j (delete_keys (timers_due wm (set_watermark wm c.memory)) (set_watermark wm c.memory))
        ≡ get j (set_watermark wm c.memory)
  before_sweep j hwm ne =
      let m = set_watermark wm c.memory in
      delete_keys_kept j (timers_due wm m) m ne
        (timers_due-IsReady w wm m (set_watermark-IsWellFormed w wm c.memory hwm t.formed))

  -- Setting the watermark changes no other entry.
  pub other_entry :
      (j : Bytes) → j ≢ watermark_state_key → get j (set_watermark wm c.memory) ≡ get j c.memory
  unfolding set_watermark
  other_entry j ne = get-put_ne j watermark_state_key (encode_ordered_int64 wm) c.memory ne

  mark_set : get watermark_state_key (set_watermark wm c.memory) ≡ some (encode_ordered_int64 wm)
  unfolding set_watermark
  mark_set = get-put_self watermark_state_key (encode_ordered_int64 wm) c.memory

  count_swept :
      (o : Outcome) (key : Bytes) (start : ℤ)
      → IsInt64 wm
      → IsInt64 start
      → Advances w r wm c o
      → is_purged w wm start ≡ false
      → get (state_key key start) o.1.memory ≡ get (state_key key start) c.memory
  count_swept o key start hwm hs a live =
      a.swept.kept (state_key key start) (λ j s hs' p same.
        let starts : start ≡ s = (state_key-injective key j start s hs hs' same).1 in
        absurd (cc (live, ap (is_purged w wm) starts, p)))
      ∙ before_sweep (state_key key start) hwm (λ f j s. state-ne-timer key j start f s)
      ∙ other_entry (state_key key start) (state-ne-mark key start)

  mark_swept :
      (o : Outcome)
      → IsInt64 wm
      → Advances w r wm c o
      → get watermark_state_key o.1.memory ≡ some (encode_ordered_int64 wm)
  mark_swept o hwm a =
      a.swept.kept watermark_state_key (λ j s hs p same. absurd (state-ne-mark j s (sym same)))
      ∙ before_sweep watermark_state_key hwm (λ f j s same. absurd (timer-ne-mark j f s (sym same)))
      ∙ mark_set

is_purged_mono :
    (w : WindowCount) (x wm start : ℤ)
    → x ≤ℤ wm
    → is_purged w wm start ≡ false
    → is_purged w x start ≡ false
unfolding is_purged
is_purged_mono w x wm start le p = ground (arith, le, p)

current_set :
    (wm : ℤ) (m : Memory)
    → IsInt64 wm
    → get watermark_state_key m ≡ some (encode_ordered_int64 wm)
    → current_watermark m ≡ ok wm
unfolding current_watermark
current_set wm m h e = ap watermark_of e ∙ watermark_read wm h

-- A watermark that is not below the last.
pub process_watermark-Tracked :
    (w : WindowCount) (r : IsInRange w) (x wm : ℤ) (seen : List Record) (c : Counts)
    → IsInt64 wm
    → x ≤ℤ wm
    → Tracked w x seen c
    → ((process_watermark w wm c).0 ≡ none) × Tracked w wm seen (process_watermark w wm c).1
process_watermark-Tracked w r x wm seen c h le t =
    let o = process_watermark w wm c in
    let a = process_watermark_lem w r wm c h t.formed in
    (
      a.good,
      record {
        formed = a.swept.is_quiet.formed;
        instant = h;
        current = current_set wm o.1.memory h (mark_swept w r x wm seen c t o h a);
        live = λ key start v hs hf e. elim (Bool-cases (is_purged w wm start)) [
          | inl p ↦ absurd (not_purged w r wm o.1.memory key v start hs hf a.swept.is_quiet e p)
          | inr p ↦ p
        ];
        counts = λ key start hs live.
            ap count_at (count_swept w r x wm seen c t o key start h hs a live)
            ∙ t.counts key start hs (is_purged_mono w x wm start le live);
      },
    )

-- What a due timer sends if its count is that of the records.
unfoldable pub reported : WindowCount → List Record → DueTimer → Record
reported w seen t = record {
  key = t.key;
  value = encode_count (times (hits w t.key t.window_start seen));
  event_time = fire_time_of w t.window_start;
}

map-All :
    (f g : DueTimer → Record) (ts : List DueTimer) → All (λ t. f t ≡ g t) ts → map f ts ≡ map g ts
map-All f g [] a = refl
map-All f g (t ∷ ts) a = rw (a.0, map-All f g ts a.1) refl

pub fired-reported :
    (w : WindowCount) (r : IsInRange w) (x wm : ℤ) (seen : List Record) (c : Counts)
    → IsInt64 wm
    → Tracked w x seen c
    → map (fired w (set_watermark wm c.memory)) (timers_due wm (set_watermark wm c.memory))
      ≡ map (reported w seen) (timers_due wm (set_watermark wm c.memory))
unfolding fired reported
fired-reported w r x wm seen c h t =
    let m = set_watermark wm c.memory in
    let same = λ (j : Bytes) (ne : j ≢ watermark_state_key). other_entry w r x wm seen c t j ne in
    map-All (fired w m) (reported w seen) (timers_due wm m) (
      timers_due-All (λ d. fired w m d ≡ reported w seen d) w wm m
        (λ key start v u hs hf due e eu.
          let live = t.live key start v hs hf (
            sym (
              same (timer_key (fire_time_of w start) key start)
                (timer-ne-mark key (fire_time_of w start) start))
            ∙ e) in
          let n : count_at (get (state_key key start) m) ≡ times (hits w key start seen) =
            ap count_at (same (state_key key start) (state-ne-mark key start))
            ∙ t.counts key start hs live in
          rw n refl)
        (set_watermark-IsWellFormed w wm c.memory h t.formed))
