-- ===== src/Operators/Counting/Armed.antt =====
-- pkg/operators/window.go: a window with records has its timer until it fires.
use tidemark.Prelude.{
  ◌≡◌, ◌≢◌, ◌⊎◌, refl, sym, ap, ◌∙◌, subst, ℤ, ◌≤ℤ◌, ◌<ℤ◌, IsInt64, ltb_ℤ, eqb_ℤ, eqb_ℤ_iff, false,
  Option, none, some, List, [], ◌∷◌, All, inl, inr, Bool-cases, arith,
}
use mathlib.Core.List.{Memᴰ}
use tidemark.Core.{Record}
use tidemark.State.Keyed.{Bytes, Memory, bytes_eq, get, put, delete}
use tidemark.State.Keyed.Order.{bytes_eq_iff}
use tidemark.State.Keyed.Laws.{get-put_self, get-delete_ne}
use tidemark.Operators.Windows.{WindowCount, windows_for, fire_time_of, is_purged}
use tidemark.Operators.Windows.Range.{windows_for-IsInt64}
use tidemark.Operators.Windows.Firing.{is_purged-fire_time_of}
use tidemark.Operators.Layout.{state_key, timer_key, encode_count}
use tidemark.Operators.Counting.{
  Counts, DueTimer, set_watermark, count_one, add_to_window, add_to_windows, process_element,
  process_watermark,
}
use tidemark.Operators.Counting.Forms.{IsWellFormed, state-ne-timer, timer-ne-mark}
use tidemark.Operators.Counting.Invariant.{
  put_keeps, current_count_lem, IsInRange, fire_time-IsInt64, add_to_window-Fine,
}
use tidemark.Operators.Counting.Due.{due_of, cons_some, timers_due, due_of-timer_key}
use tidemark.Operators.Counting.Firing.{delete_keys}
use tidemark.Operators.Counting.Purging.{timers_due-All}
use tidemark.Operators.Counting.Watermark.{
  and_then_good, process_watermark_lem, set_watermark-IsWellFormed,
}
use tidemark.Operators.Counting.Reference.{hits, occurrences}
use tidemark.Operators.Counting.Tracked.{Tracked, timer_key-times}
use tidemark.Operators.Counting.Advance.{other_entry}

abbrev pub Found : Bytes → Memory → Type 0
Found k m = (v : Bytes) × (get k m ≡ some v)

unfoldable pub IsArmed : WindowCount → ℤ → List Record → Memory → Type 0
IsArmed w x seen m =
    (key : Bytes) (start : ℤ)
    → IsInt64 start
    → x <ℤ fire_time_of w start
    → (hits w key start seen ≡ 0) ⊎ Found (timer_key (fire_time_of w start) key start) m

-- A window that has not fired is not to purge.
unfired_live :
    (w : WindowCount) (r : IsInRange w) (x start : ℤ)
    → IsInt64 start
    → x <ℤ fire_time_of w start
    → is_purged w x start ≡ false
unfired_live w r x start hs h = elim (Bool-cases (is_purged w x start)) [
  | inl p ↦ absurd (omega (arith, h, is_purged-fire_time_of w x start hs r.size r.lateness p))
  | inr p ↦ p
]

module _ (w : WindowCount) (r : IsInRange w) (x : ℤ) (key : Bytes) where
  count_one-Found :
      (start n : ℤ) (c : Counts) (j : Bytes)
      → Found j c.memory
      → Found j (count_one w key start c n).1.memory
  unfolding count_one
  count_one-Found start n c j (v, e) =
      let k = state_key key start in
      let (v', e') = put_keeps k (encode_count _) c.memory j v e in
      put_keeps (timer_key (fire_time_of w start) key start) [] (put k (encode_count _) c.memory) j
        v' e'

  count_one_armed :
      (start n : ℤ) (c : Counts)
      → Found (timer_key (fire_time_of w start) key start) (count_one w key start c n).1.memory
  unfolding count_one
  count_one_armed start n c = ([], get-put_self (timer_key (fire_time_of w start) key start) [] _)

  add_to_window-Found :
      (start : ℤ) (c : Counts) (j : Bytes)
      → IsWellFormed w c.memory
      → Found j c.memory
      → Found j (add_to_window w x key start c).1.memory
  unfolding add_to_window
  add_to_window-Found start c j wf h =
      let (n, e) = current_count_lem w c.memory key start wf in
      elim (Bool-cases (is_purged w x start)) [
        | inl late ↦ rw late h
        | inr live ↦ rw (live, e) (count_one-Found start n c j h)
      ]

  add_to_window_armed :
      (start : ℤ) (c : Counts)
      → IsWellFormed w c.memory
      → is_purged w x start ≡ false
      → Found (timer_key (fire_time_of w start) key start) (add_to_window w x key start c).1.memory
  unfolding add_to_window
  add_to_window_armed start c wf live =
      let (n, e) = current_count_lem w c.memory key start wf in
      rw (live, e) (count_one_armed start n c)

  add_to_windows-Found :
      (starts : List ℤ) (c : Counts) (j : Bytes)
      → All IsInt64 starts
      → IsWellFormed w c.memory
      → Found j c.memory
      → Found j (add_to_windows w x key starts c).1.memory
  unfolding add_to_windows
  add_to_windows-Found [] c j hss wf h = h
  add_to_windows-Found (s ∷ starts) c j hss wf h =
      let o = add_to_window w x key s c in
      let (good, wf') = add_to_window-Fine w x key s c r hss.0 wf in
      rw (and_then_good o (add_to_windows w x key starts) good)
        (add_to_windows-Found starts o.1 j hss.1 wf' (add_to_window-Found s c j wf h))

  add_to_windows_armed :
      (start : ℤ) (starts : List ℤ) (c : Counts)
      → All IsInt64 starts
      → IsWellFormed w c.memory
      → is_purged w x start ≡ false
      → (occurrences start starts ≡ 0)
        ⊎ Found
            (timer_key (fire_time_of w start) key start)
            (add_to_windows w x key starts c).1.memory
  unfolding add_to_windows occurrences
  add_to_windows_armed start [] c hss wf live = inl refl
  add_to_windows_armed start (s ∷ starts) c hss wf live =
      let o = add_to_window w x key s c in
      let (good, wf') = add_to_window-Fine w x key s c r hss.0 wf in
      let k = timer_key (fire_time_of w start) key start in
      rw (and_then_good o (add_to_windows w x key starts) good) (elim (Bool-cases (eqb_ℤ s start)) [
        | inl here ↦
            let same : s ≡ start = (eqb_ℤ_iff s start).0 here in
            inr (
              add_to_windows-Found starts o.1 k hss.1 wf' (
                subst (λ t. Found k (add_to_window w x key t c).1.memory) (sym same)
                  (add_to_window_armed start c wf live)))
        | inr differs ↦ rw differs (add_to_windows_armed start starts o.1 hss.1 wf' live)
      ])

pub process_element-IsArmed :
    (w : WindowCount) (r : IsInRange w) (x : ℤ) (rec : Record) (seen : List Record) (c : Counts)
    → Tracked w x seen c
    → IsArmed w x seen c.memory
    → IsArmed w x (rec ∷ seen) (process_element w rec c).1.memory
unfolding process_element hits IsArmed
process_element-IsArmed w r x rec seen c t a = λ key start hs h.
    let starts = windows_for w rec.event_time in
    let hss = windows_for-IsInt64 w rec.event_time in
    let live = unfired_live w r x start hs h in
    let k = timer_key (fire_time_of w start) key start in
    rw t.current (elim (a key start hs h) [
      | inr found ↦ inr (add_to_windows-Found w r x rec.key starts c k hss t.formed found)
      | inl zero_before ↦ elim (Bool-cases (bytes_eq rec.key key)) [
        | inr differs ↦ inl (rw differs zero_before)
        | inl same ↦ elim (add_to_windows_armed w r x rec.key start starts c hss t.formed live) [
          | inl none_here ↦ inl (rw same (omega (arith, none_here, zero_before)))
          | inr found ↦
              let keys : rec.key ≡ key = (bytes_eq_iff rec.key key).0 same in
              inr (
                subst
                  (λ j.
                    Found (timer_key (fire_time_of w start) j start)
                      (add_to_windows w x rec.key starts c).1.memory)
                  keys found)
        ]
      ]
    ])

-- A key that no due timer has stays when these are deleted.
others_kept :
    (j : Bytes) (ts : List DueTimer) (m : Memory)
    → All (λ t. j ≢ t.state_key) ts
    → get j (delete_keys ts m) ≡ get j m
unfolding delete_keys
others_kept j [] m a = refl
others_kept j (t ∷ ts) m a =
    others_kept j ts (delete t.state_key m) a.1 ∙ get-delete_ne j t.state_key m a.0

module _ (w : WindowCount) (r : IsInRange w) (x wm : ℤ) (seen : List Record) (c : Counts)
    (t : Tracked w x seen c) where
  -- The timer of a window that the watermark has not reached.
  timer_kept :
      (key : Bytes) (start : ℤ)
      → IsInt64 wm
      → IsInt64 start
      → wm <ℤ fire_time_of w start
      → get (timer_key (fire_time_of w start) key start) (process_watermark w wm c).1.memory
        ≡ get (timer_key (fire_time_of w start) key start) c.memory
  timer_kept key start h hs late =
      let f = fire_time_of w start in
      let hf = fire_time-IsInt64 w start r hs in
      let k = timer_key f key start in
      let m = set_watermark wm c.memory in
      let a = process_watermark_lem w r wm c h t.formed in
      a.swept.kept k (λ j s hs' p same. absurd (state-ne-timer j key s f start (sym same)))
      ∙ others_kept k (timers_due wm m) m (
          timers_due-All (λ d. k ≢ d.state_key) w wm m
            (λ j s v u hs' hg due e eu same.
              let times : f ≡ fire_time_of w s =
                (timer_key-times f (fire_time_of w s) key j start s hf hg hs hs' same).0 in
              absurd (ground (arith, late, rw (sym times) at due)))
            (set_watermark-IsWellFormed w wm c.memory h t.formed))
      ∙ other_entry w r x wm seen c t k (timer-ne-mark key f start)

  pub process_watermark-IsArmed :
      IsInt64 wm
      → x ≤ℤ wm
      → IsArmed w x seen c.memory
      → IsArmed w wm seen (process_watermark w wm c).1.memory
  unfolding IsArmed
  process_watermark-IsArmed h le a = λ key start hs late.
      elim (a key start hs (omega (arith, le, late))) [
        | inl zero_hits ↦ inl zero_hits
        | inr (v, e) ↦ inr (v, timer_kept key start h hs late ∙ e)
      ]

later :
    (o : Option DueTimer) {t : DueTimer} (ts : List DueTimer) → Memᴰ t ts → Memᴰ t (cons_some o ts)
later none ts m = m
later (some u) ts m = Memᴰ.tail m

found_due :
    (wm : ℤ) (k : Bytes) (t : DueTimer) (m : Memory)
    → due_of wm k ≡ some t
    → Found k m
    → Memᴰ t (timers_due wm m)
unfolding timers_due get
found_due wm k t [] h (v, e) = absurd (cc (e))
found_due wm k t ((j, u) ∷ m) h (v, e) = elim (Bool-cases (bytes_eq k j)) [
  | inl same ↦
      let here : due_of wm j ≡ some t = ap (due_of wm) (sym ((bytes_eq_iff k j).0 same)) ∙ h in
      rw here (Memᴰ.head refl)
  | inr other ↦ later (due_of wm j) (timers_due wm m) (found_due wm k t m h (v, rw other at e))
]

-- A window with records that a watermark reaches has its timer due.
pub reached_due :
    (w : WindowCount) (r : IsInRange w) (x wm : ℤ) (seen : List Record) (c : Counts)
    → Tracked w x seen c
    → IsArmed w x seen c.memory
    → (key : Bytes) (start : ℤ) → IsInt64 start
    → x <ℤ fire_time_of w start
    → fire_time_of w start ≤ℤ wm
    → hits w key start seen ≢ 0
    → Memᴰ
        (record {
          state_key = timer_key (fire_time_of w start) key start;
          key = key;
          window_start = start;
        })
        (timers_due wm (set_watermark wm c.memory))
unfolding IsArmed
reached_due w r x wm seen c t a key start hs h reached some_hits =
    let f = fire_time_of w start in
    let k = timer_key f key start in
    let hf = fire_time-IsInt64 w start r hs in
    let due : ltb_ℤ wm f ≡ false = ground (arith, reached) in
    elim (a key start hs h) [
      | inl none_hit ↦ absurd (some_hits none_hit)
      | inr (v, e) ↦
          found_due wm k _ (set_watermark wm c.memory)
            (due_of-timer_key wm f key start hf hs ∙ rw due refl)
            (v, other_entry w r x wm seen c t k (timer-ne-mark key f start) ∙ e)
    ]
