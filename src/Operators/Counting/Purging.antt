-- ===== src/Operators/Counting/Purging.antt =====
-- pkg/operators/window.go: once the due timers have fired, no timer is due.
use tidemark.Prelude.{
  ◌≡◌, ◌≢◌, refl, sym, ap, ◌∙◌, ℤ, IsInt64, ltb_ℤ, false, Option, none, some, List, [], ◌∷◌, All,
  ◌==◌, ◌⊎◌, inl, inr, Bool-cases, Option-cases,
}
use tidemark.State.Keyed.{Bytes, Memory, bytes_eq, get, delete, prefix_timer}
use tidemark.State.Keyed.Order.{IsSorted, delete-IsSorted, bytes_eq_iff}
use tidemark.State.Keyed.Laws.{get-delete_self, get-delete_ne}
use tidemark.State.Keyed.Visits.{Holds, own_entries, All-get}
use tidemark.Operators.Windows.{WindowCount, fire_time_of}
use tidemark.Operators.Layout.{Parsed, ok, err, Timer, state_key, timer_key, parse_timer_key}
use tidemark.Operators.Counting.{DueTimer}
use tidemark.Operators.Counting.Forms.{Form, count, timer, mark, IsWellFormed, state-ne-timer}
use tidemark.Operators.Counting.Due.{
  due_of, due_timer, cons_some, timers_due, due_of-state_key, due_of-mark, due_of-timer_key,
}
use tidemark.Operators.Counting.Invariant.{key_cases, Form-kept, count_value}
use tidemark.Operators.Counting.Firing.{IsReady, delete_keys, All-delete}

-- What holds of the timer of a window with a count, where it is due, holds of every timer that is.
module _ {ℓ} (P : DueTimer → Type ℓ) (w : WindowCount) (wm : ℤ) (m : Memory) where
  abbrev pub Rule : Type ℓ
  Rule =
      (key : Bytes) (start : ℤ) (v c : Bytes)
      → IsInt64 start
      → IsInt64 (fire_time_of w start)
      → ltb_ℤ wm (fire_time_of w start) ≡ false
      → get (timer_key (fire_time_of w start) key start) m ≡ some v
      → get (state_key key start) m ≡ some c
      → P (record {
        state_key = timer_key (fire_time_of w start) key start;
        key = key;
        window_start = start;
      })

  due_cons :
      Rule
      → (k v : Bytes) (es : Memory) → get k m ≡ some v
      → Form w m k v
      → All P (timers_due wm es)
      → All P (cons_some (due_of wm k) (timers_due wm es))
  due_cons rule k v es e (count key start hs ek l) a = rw ek (rw (due_of-state_key wm key start) a)
  due_cons rule k v es e (mark x hx ek ev) a = rw ek (rw (due_of-mark wm) a)
  due_cons rule k v es e (timer key start c hs hf ek ec) a =
      let f = fire_time_of w start in
      elim (Bool-cases (ltb_ℤ wm f)) [
        | inl late ↦ rw ek (rw (due_of-timer_key wm f key start hf hs, late) a)
        | inr due ↦ rw ek (
            rw (due_of-timer_key wm f key start hf hs, due)
              (rule key start v c hs hf due (rw ek at e) ec, a))
      ]

  due_suffix :
      Rule → (es : Memory) → Holds m es → All (λ e. Form w m e.0 e.1) es → All P (timers_due wm es)
  unfolding timers_due
  due_suffix rule [] h fs = tt
  due_suffix rule ((k, v) ∷ es) h fs = due_cons rule k v es h.0 fs.0 (due_suffix rule es h.1 fs.1)

  pub timers_due-All : Rule → IsWellFormed w m → All P (timers_due wm m)
  timers_due-All rule wf =
      let h = own_entries m wf.sorted in
      due_suffix rule m h (All-get (λ e. Form w m e.0 e.1) m m h wf.formed)

-- Every timer that is due is ready to fire.
pub timers_due-IsReady :
    (w : WindowCount) (wm : ℤ) (m : Memory) → IsWellFormed w m → All (IsReady m) (timers_due wm m)
timers_due-IsReady w wm m wf =
    timers_due-All (IsReady m) w wm m
      (λ key start v c hs hf due e ec. record {
        fire_time = fire_time_of w start;
        shape = refl;
        value = c;
        counted = ec;
        eight = count_value w m key start c (wf.formed (state_key key start) c ec);
      })
      wf

delete_timer-IsWellFormed :
    (w : WindowCount) (m : Memory) (t : DueTimer)
    → IsReady m t
    → IsWellFormed w m
    → IsWellFormed w (delete t.state_key m)
delete_timer-IsWellFormed w m t r wf = record {
  sorted = delete-IsSorted t.state_key m wf.sorted;
  formed = λ j x e.
      key_cases j t.state_key
        (λ same. absurd (
          cc (
            e,
            ap (λ k. get k (delete t.state_key m)) same,
            get-delete_self t.state_key m wf.sorted,
          )))
        (λ other.
          Form-kept w m (delete t.state_key m) j x
            (λ key start c hs h. (
              c,
              get-delete_ne (state_key key start) t.state_key m
                    (λ p. state-ne-timer key t.key start r.fire_time t.window_start (p ∙ r.shape))
                  ∙ h,
            ))
            (wf.formed j x (sym (get-delete_ne j t.state_key m other) ∙ e)));
}

pub delete_keys-IsWellFormed :
    (w : WindowCount) (ts : List DueTimer) (m : Memory)
    → All (IsReady m) ts
    → IsWellFormed w m
    → IsWellFormed w (delete_keys ts m)
unfolding delete_keys
delete_keys-IsWellFormed w [] m a wf = wf
delete_keys-IsWellFormed w (t ∷ ts) m a wf =
    delete_keys-IsWellFormed w ts (delete t.state_key m) (All-delete m t ts a.0 a.1)
      (delete_timer-IsWellFormed w m t a.0 wf)

-- What is left was there before.
pub delete-sub :
    (k j v : Bytes) (m : Memory) → IsSorted m → get k (delete j m) ≡ some v → get k m ≡ some v
delete-sub k j v m s e =
    key_cases k j
      (λ same. absurd (cc (e, ap (λ x. get x (delete j m)) same, get-delete_self j m s)))
      (λ other. sym (get-delete_ne k j m other) ∙ e)

delete_keys-sub :
    (ts : List DueTimer) (k v : Bytes) (m : Memory)
    → IsSorted m
    → get k (delete_keys ts m) ≡ some v
    → get k m ≡ some v
unfolding delete_keys
delete_keys-sub [] k v m s e = e
delete_keys-sub (t ∷ ts) k v m s e =
    delete-sub k t.state_key v m s
      (delete_keys-sub ts k v (delete t.state_key m) (delete-IsSorted t.state_key m s) e)

abbrev InKeys : Bytes → List DueTimer → Type 0
InKeys k [] = ⊥
InKeys k (t ∷ ts) = (k ≡ t.state_key) ⊎ InKeys k ts

deleted :
    (ts : List DueTimer) (k v : Bytes) (m : Memory)
    → IsSorted m
    → InKeys k ts
    → get k (delete_keys ts m) ≢ some v
unfolding delete_keys
deleted [] k v m s i = elim i [ ]
deleted (t ∷ ts) k v m s (inl same) = λ e.
    let there = delete_keys-sub ts k v (delete t.state_key m) (delete-IsSorted t.state_key m s) e in
    absurd
      (cc (there, ap (λ x. get x (delete t.state_key m)) same, get-delete_self t.state_key m s))
deleted (t ∷ ts) k v m s (inr later) =
    deleted ts k v (delete t.state_key m) (delete-IsSorted t.state_key m s) later

some_key : (a t : DueTimer) → some a ≡ some t → t.state_key ≡ a.state_key
some_key a t h = let e : a ≡ t = cc (h) in sym (ap (λ (x : DueTimer). x.state_key) e)

due_timer-key :
    (wm : ℤ) (k : Bytes) (p : Parsed Timer) (t : DueTimer)
    → due_timer wm k p ≡ some t
    → t.state_key ≡ k
unfolding due_timer
due_timer-key wm k (err e) t h = absurd (cc (h))
due_timer-key wm k (ok u) t h = elim (Bool-cases (ltb_ℤ wm u.fire_time)) [
  | inl late ↦ absurd (cc (rw late at h))
  | inr due ↦ some_key _ t (rw due at h)
]

due_of-key : (wm : ℤ) (k : Bytes) (t : DueTimer) → due_of wm k ≡ some t → t.state_key ≡ k
unfolding due_of
due_of-key wm [] t h = absurd (cc (h))
due_of-key wm (b ∷ k) t h = elim (Bool-cases (b == prefix_timer)) [
  | inl e ↦ due_timer-key wm (b ∷ k) (parse_timer_key (b ∷ k)) t (rw e at h)
  | inr e ↦ absurd (cc (rw e at h))
]

InKeys-later :
    (k : Bytes) (o : Option DueTimer) (ts : List DueTimer) → InKeys k ts → InKeys k (cons_some o ts)
InKeys-later k none ts i = i
InKeys-later k (some t) ts i = inr i

-- A timer that is due is among those that are found.
among :
    (wm : ℤ) (k v : Bytes) (t : DueTimer) (m : Memory)
    → due_of wm k ≡ some t
    → get k m ≡ some v
    → InKeys k (timers_due wm m)
unfolding timers_due get
among wm k v t [] h e = absurd (cc (e))
among wm k v t ((j, x) ∷ m) h e = elim (Bool-cases (bytes_eq k j)) [
  | inl same ↦
      let key : k ≡ j = (bytes_eq_iff k j).0 same in
      let here : due_of wm j ≡ some t = ap (due_of wm) (sym key) ∙ h in
      rw here (inl (sym (due_of-key wm k t h)))
  | inr other ↦ InKeys-later k (due_of wm j) (timers_due wm m) (among wm k v t m h (rw other at e))
]

-- Once the due timers are deleted none is due.
pub none_left_due :
    (wm : ℤ) (k v : Bytes) (m : Memory)
    → IsSorted m
    → get k (delete_keys (timers_due wm m) m) ≡ some v
    → due_of wm k ≡ none
none_left_due wm k v m s e = elim (Option-cases (due_of wm k)) [
  | inl n ↦ n
  | inr (t, h) ↦ absurd (
      deleted (timers_due wm m) k v m s
        (among wm k v t m h (delete_keys-sub (timers_due wm m) k v m s e)) e)
]
