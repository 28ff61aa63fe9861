-- ===== src/Operators/Counting/Due.antt =====
-- pkg/operators/window.go: `collectDueTimers` finds exactly the timers that are due.
use tidemark.Prelude.{
  ◌≡◌, refl, ap, ◌∙◌, ℤ, ◌≤ℤ◌, IsInt64, ltb_ℤ, true, false, Option, none, some, List, [], ◌∷◌, ◌++◌,
  append-nil, append_assoc, map, All, ◌==◌, if◌then◌else◌, inl, inr, Bool-cases, arith,
}
use tidemark.State.Encoding.Order.{sorts_before}
use tidemark.State.Keyed.{Bytes, Memory, iterate, visit_keys, prefix_timer}
use tidemark.State.Keyed.Order.{IsSorted, Below}
use tidemark.State.Keyed.Visits.{Holds, own_entries, All-get}
use tidemark.Operators.Windows.{WindowCount, fire_time_of}
use tidemark.Operators.Layout.{
  Parsed, ok, err, Timer, state_key, timer_key, watermark_state_key, parse_timer_key,
}
use tidemark.Operators.Counting.{
  DueTimer, Scan, note_timer, collect_visit, collected, collect_due_timers,
}
use tidemark.Operators.Layout.Keys.{parse_timer_key-timer_key}
use tidemark.Operators.Counting.Forms.{
  Form, count, timer, mark, IsWellFormed, timer_order, mark_last_timer,
}

-- The timer under a key, if there is one that is due.
unfoldable pub due_timer : ℤ → Bytes → Parsed Timer → Option DueTimer
due_timer wm k (err e) = none
due_timer wm k (ok t) =
    if ltb_ℤ wm t.fire_time
    then none
    else some (record { state_key = k; key = t.key; window_start = t.window_start })

unfoldable pub due_of : ℤ → Bytes → Option DueTimer
unfolding due_timer
due_of wm [] = none
due_of wm (b ∷ k) =
    if b == prefix_timer then due_timer wm (b ∷ k) (parse_timer_key (b ∷ k)) else none

abbrev pub cons_some {ℓ} : {A : Type ℓ} → Option A → List A → List A
cons_some none xs = xs
cons_some (some x) xs = x ∷ xs

-- All the timers that are due, among all the entries.
unfoldable pub timers_due : ℤ → Memory → List DueTimer
timers_due wm [] = []
timers_due wm ((k, v) ∷ m) = cons_some (due_of wm k) (timers_due wm m)

pub due_of-state_key : (wm : ℤ) (key : Bytes) (start : ℤ) → due_of wm (state_key key start) ≡ none
unfolding due_of state_key
due_of-state_key wm key start = refl

pub due_of-mark : (wm : ℤ) → due_of wm watermark_state_key ≡ none
unfolding due_of
due_of-mark wm = refl

pub due_of-timer_key :
    (wm f : ℤ) (key : Bytes) (start : ℤ)
    → IsInt64 f
    → IsInt64 start
    → due_of wm (timer_key f key start) ≡ (
        if ltb_ℤ wm f
        then none
        else some (record { state_key = timer_key f key start; key = key; window_start = start }))
unfolding due_of timer_key due_timer
due_of-timer_key wm f key start hf hs =
    ap (due_timer wm (timer_key f key start)) (parse_timer_key-timer_key f key start hf hs)

-- What the visit does with each kind of entry.
visit_state :
    (wm : ℤ) (key v : Bytes) (start : ℤ) (m : Memory) (s : Scan)
    → collect_visit wm (state_key key start) v m s ≡ (true, m, s)
unfolding collect_visit state_key
visit_state wm key v start m s = refl

visit_mark :
    (wm : ℤ) (v : Bytes) (m : Memory) (s : Scan)
    → collect_visit wm watermark_state_key v m s ≡ (false, m, s)
unfolding collect_visit
visit_mark wm v m s = refl

-- The scan with one more timer.
abbrev noted : Bytes → Bytes → ℤ → Scan → Scan
noted k key start s = record s {
  due = s.due ++ (record { state_key = k; key = key; window_start = start } ∷ []);
}

visit_timer :
    (wm f : ℤ) (key v : Bytes) (start : ℤ) (m : Memory) (s : Scan)
    → IsInt64 f
    → IsInt64 start
    → collect_visit wm (timer_key f key start) v m s
      ≡ (if ltb_ℤ wm f then (false, m, s) else (true, m, noted (timer_key f key start) key start s))
unfolding collect_visit timer_key note_timer
visit_timer wm f key v start m s hf hs =
    ap (λ p. note_timer wm (timer_key f key start) p m s)
      (parse_timer_key-timer_key f key start hf hs)

module _ (w : WindowCount) (wm : ℤ) (m : Memory) where
  -- Behind an entry from which on nothing is due.
  none_due :
      (j : Bytes) (es : Memory)
      → All (λ e. Form w m e.0 e.1) es
      → Below j es
      → ((k v : Bytes) → Form w m k v → sorts_before j k ≡ true → due_of wm k ≡ none)
      → timers_due wm es ≡ []
  unfolding timers_due
  none_due j [] fs b stop = refl
  none_due j ((k, v) ∷ es) fs b stop = rw (stop k v fs.0 b.0) (none_due j es fs.1 b.1 stop)

  due_behind_mark :
      (k v : Bytes) → Form w m k v → sorts_before watermark_state_key k ≡ true → due_of wm k ≡ none
  due_behind_mark k v (count key start hs ek l) h = rw ek (due_of-state_key wm key start)
  due_behind_mark k v (mark x hx ek ev) h = rw ek (due_of-mark wm)
  due_behind_mark k v (timer key start c hs hf ek ec) h =
      absurd (cc (rw ek at h, mark_last_timer key (fire_time_of w start) start))

  due_behind_timer :
      (f : ℤ) (key : Bytes) (start : ℤ)
      → IsInt64 f
      → ltb_ℤ wm f ≡ true
      → (k v : Bytes) → Form w m k v
      → sorts_before (timer_key f key start) k ≡ true
      → due_of wm k ≡ none
  due_behind_timer f key start hf late k v (count key' start' hs ek l) h =
      rw ek (due_of-state_key wm key' start')
  due_behind_timer f key start hf late k v (mark x hx ek ev) h = rw ek (due_of-mark wm)
  due_behind_timer f key start hf late k v (timer key' start' c hs hg ek ec) h =
      let g = fire_time_of w start' in
      let order : f ≤ℤ g = timer_order f g key key' start start' hf hg (rw ek at h) in
      let later : ltb_ℤ wm g ≡ true = ground (arith, late, order) in
      rw ek (due_of-timer_key wm g key' start' hg hs ∙ rw later refl)

  -- The rest of the scan, from its state on.
  collect_suffix :
      (es : Memory) (s : Scan)
      → Holds m es
      → All (λ e. Form w m e.0 e.1) es
      → IsSorted es
      → visit_keys (map (λ e. e.0) es) (collect_visit wm) m s
        ≡ (m, record s { due = s.due ++ timers_due wm es })
  unfolding visit_keys timers_due
  collect_suffix [] s h fs so = rw (append-nil s.due) refl
  collect_suffix ((k, v) ∷ es) s h (count key start hs ek l, fs) so = rw h.0 (
      rw ek (
        rw (visit_state wm key v start m s, due_of-state_key wm key start)
          (collect_suffix es s h.1 fs so.1)))
  collect_suffix ((k, v) ∷ es) s h (mark x hx ek ev, fs) so =
      let none_left : timers_due wm es ≡ [] =
        none_due watermark_state_key es fs (rw ek at so.0) due_behind_mark in
      rw h.0 (rw ek (rw (visit_mark wm v m s, due_of-mark wm, none_left, append-nil s.due) refl))
  collect_suffix ((k, v) ∷ es) s h (timer key start c hs hf ek ec, fs) so =
      let f = fire_time_of w start in
      elim (Bool-cases (ltb_ℤ wm f)) [
        | inl late ↦
            let none_left : timers_due wm es ≡ [] =
              none_due (timer_key f key start) es fs (rw ek at so.0)
                (due_behind_timer f key start hf late) in
            rw h.0 (
              rw ek (
                rw
                  (
                    visit_timer wm f key v start m s hf hs,
                    due_of-timer_key wm f key start hf hs,
                    late,
                    none_left,
                    append-nil s.due,
                  )
                  refl))
        | inr due ↦
            let t : DueTimer = record {
              state_key = timer_key f key start;
              key = key;
              window_start = start;
            } in
            rw h.0 (
              rw ek (
                rw
                  (
                    visit_timer wm f key v start m s hf hs,
                    due_of-timer_key wm f key start hf hs,
                    due,
                  )
                  (collect_suffix es (noted (timer_key f key start) key start s) h.1 fs so.1
                    ∙ ap (λ ts. (m, record s { due = ts }))
                        (append_assoc s.due (t ∷ []) (timers_due wm es)))))
      ]

-- In a well-formed state the scan, which stops at the first timer that is not due, finds the timers that
-- are due, all of them, in the order of the keys.
pub collect_due_timers_lem :
    (w : WindowCount) (wm : ℤ) (m : Memory)
    → IsWellFormed w m
    → collect_due_timers wm m ≡ ok (timers_due wm m)
unfolding collect_due_timers iterate collected
collect_due_timers_lem w wm m wf =
    let h = own_entries m wf.sorted in
    let fs = All-get (λ e. Form w m e.0 e.1) m m h wf.formed in
    ap (λ r. collected r.1)
      (collect_suffix w wm m m (record { due = []; scan_err = none }) h fs wf.sorted)
