-- ===== src/Operators/Counting/Sweep.antt =====
-- pkg/operators/window.go: `purge` deletes no count that a timer still waits for, and nothing but counts.
use tidemark.Prelude.{
  ◌≡◌, ◌≢◌, refl, ap, ◌∙◌, ℤ, ◌≤ℤ◌, IsInt64, ltb_ℤ, true, false, Option, none, some, [], ◌∷◌, All,
  map, if◌then◌else◌, inl, inr, Bool-cases, arith,
}
use tidemark.State.Encoding.Order.{sorts_before}
use tidemark.State.Keyed.{Bytes, Memory, get, delete, visit_keys}
use tidemark.State.Keyed.Order.{IsSorted, Below, delete-IsSorted, sorts_before_irrefl}
use tidemark.State.Keyed.Laws.{get-delete_ne}
use tidemark.State.Keyed.Visits.{Holds}
use tidemark.Operators.Windows.{WindowCount, fire_time_of, is_purged}
use tidemark.Operators.Windows.Firing.{is_purged-fire_time_of}
use tidemark.Operators.Layout.{WindowError, state_key, timer_key, watermark_state_key}
use tidemark.Operators.Counting.{purge_entry, purge_visit}
use tidemark.Operators.Layout.Keys.{window_start_of-state_key, state_key-injective}
use tidemark.Operators.Counting.Forms.{Form, count, timer, mark, IsWellFormed}
use tidemark.Operators.Counting.Due.{due_of, due_of-timer_key}
use tidemark.Operators.Counting.Purging.{delete-sub}
use tidemark.Operators.Counting.Invariant.{key_cases, IsInRange}

visit_count :
    (w : WindowCount) (wm : ℤ) (key v : Bytes) (start : ℤ) (m : Memory) (s : Option WindowError)
    → IsInt64 start
    → purge_visit w wm (state_key key start) v m s
      ≡ (true, if is_purged w wm start then delete (state_key key start) m else m, s)
unfolding purge_visit state_key purge_entry
visit_count w wm key v start m s h =
    ap (λ p. purge_entry w wm (state_key key start) p m s) (window_start_of-state_key key start h)

stop_timer :
    (w : WindowCount) (wm f : ℤ) (key v : Bytes) (start : ℤ) (m : Memory) (s : Option WindowError)
    → purge_visit w wm (timer_key f key start) v m s ≡ (false, m, s)
unfolding purge_visit timer_key
stop_timer w wm f key v start m s = refl

stop_mark :
    (w : WindowCount) (wm : ℤ) (v : Bytes) (m : Memory) (s : Option WindowError)
    → purge_visit w wm watermark_state_key v m s ≡ (false, m, s)
unfolding purge_visit
stop_mark w wm v m s = refl

module _ (w : WindowCount) (r : IsInRange w) (wm : ℤ) where
  -- A well-formed memory in which no timer is due.
  pub record IsQuiet (m : Memory) : Type 0 where
    pub formed : IsWellFormed w m
    pub quiet : (k v : Bytes) → get k m ≡ some v → due_of wm k ≡ none

  -- A timer that is not due is not that of a window to purge.
  pub not_purged :
      (m : Memory) (key v : Bytes) (start : ℤ)
      → IsInt64 start
      → IsInt64 (fire_time_of w start)
      → IsQuiet m
      → get (timer_key (fire_time_of w start) key start) m ≡ some v
      → is_purged w wm start ≢ true
  not_purged m key v start hs hf q e p =
      let f = fire_time_of w start in
      let fires : f ≤ℤ wm = is_purged-fire_time_of w wm start hs r.size r.lateness p in
      let due : ltb_ℤ wm f ≡ false = ground (arith, fires) in
      let none_due = q.quiet (timer_key f key start) v e in
      absurd (cc (none_due, rw due at (due_of-timer_key wm f key start hf hs)))

  delete_count-formed :
      (m : Memory) (key : Bytes) (start : ℤ) (j x : Bytes)
      → IsInt64 start
      → IsQuiet m
      → is_purged w wm start ≡ true
      → get j m ≡ some x
      → Form w m j x
      → Form w (delete (state_key key start) m) j x
  delete_count-formed m key start j x h q p e (count key' start' hs ek l) =
      count key' start' hs ek l
  delete_count-formed m key start j x h q p e (mark y hy ek ev) = mark y hy ek ev
  delete_count-formed m key start j x h q p e (timer key' start' c hs hf ek ec) =
      let k = state_key key start in
      key_cases (state_key key' start') k
        (λ same.
          let starts : start' ≡ start = (state_key-injective key' key start' start hs h same).1 in
          absurd (not_purged m key' x start' hs hf q (rw ek at e) (ap (is_purged w wm) starts ∙ p)))
        (λ other.
          timer key' start' c hs hf ek (get-delete_ne (state_key key' start') k m other ∙ ec))

  -- Deleting the count of a window to purge.
  delete_count-IsQuiet :
      (m : Memory) (key : Bytes) (start : ℤ)
      → IsInt64 start
      → is_purged w wm start ≡ true
      → IsQuiet m
      → IsQuiet (delete (state_key key start) m)
  delete_count-IsQuiet m key start hs p q =
      let k = state_key key start in
      let before =
        λ (j x : Bytes) (e : get j (delete k m) ≡ some x). delete-sub j k x m q.formed.sorted e in
      record {
        formed = record {
          sorted = delete-IsSorted k m q.formed.sorted;
          formed = λ j x e.
              delete_count-formed m key start j x hs q p (before j x e)
                (q.formed.formed j x (before j x e));
        };
        quiet = λ j x e. q.quiet j x (before j x e);
      }

  -- What the sweep leaves: nothing but counts of windows to purge is gone.
  pub record Swept (m : Memory) (o : Memory × Option WindowError) : Type 0 where
    pub good : o.1 ≡ none
    pub is_quiet : IsQuiet o.0
    pub kept :
        (j : Bytes)
        → ((key : Bytes) (start : ℤ)
            → IsInt64 start
            → is_purged w wm start ≡ true
            → j ≢ state_key key start)
        → get j o.0 ≡ get j m

  Swept-refl : (m : Memory) → IsQuiet m → Swept m (m, none)
  Swept-refl m q = record { good = refl; is_quiet = q; kept = λ j h. refl }

  Holds-delete : (k : Bytes) (m es : Memory) → Below k es → Holds m es → Holds (delete k m) es
  Holds-delete k m [] b h = tt
  Holds-delete k m ((j, x) ∷ es) b h = (
    get-delete_ne j k m
          (λ e. absurd (cc (b.0, ap (λ y. sorts_before k y) e, sorts_before_irrefl k)))
        ∙ h.0,
    Holds-delete k m es b.1 h.1,
  )

  Swept-delete :
      (m : Memory) (key : Bytes) (start : ℤ) (o : Memory × Option WindowError)
      → IsInt64 start
      → is_purged w wm start ≡ true
      → Swept (delete (state_key key start) m) o
      → Swept m o
  Swept-delete m key start o hs p s = record {
    good = s.good;
    is_quiet = s.is_quiet;
    kept = λ j h. s.kept j h ∙ get-delete_ne j (state_key key start) m (h key start hs p);
  }

  pub sweep_suffix :
      (m0 es m : Memory)
      → All (λ e. Form w m0 e.0 e.1) es
      → IsSorted es
      → Holds m es
      → IsQuiet m
      → Swept m (visit_keys (map (λ e. e.0) es) (purge_visit w wm) m none)
  unfolding visit_keys
  sweep_suffix m0 [] m fs so h q = Swept-refl m q
  sweep_suffix m0 ((k, v) ∷ es) m (timer key start c hs hf ek ec, fs) so h q =
      rw h.0
        (rw ek (rw (stop_timer w wm (fire_time_of w start) key v start m none) (Swept-refl m q)))
  sweep_suffix m0 ((k, v) ∷ es) m (mark x hx ek ev, fs) so h q =
      rw h.0 (rw ek (rw (stop_mark w wm v m none) (Swept-refl m q)))
  sweep_suffix m0 ((k, v) ∷ es) m (count key start hs ek l, fs) so h q =
      elim (Bool-cases (is_purged w wm start)) [
        | inl p ↦
            let m' = delete (state_key key start) m in
            let below : Below (state_key key start) es = rw ek at so.0 in
            rw h.0 (
              rw ek (
                rw (visit_count w wm key v start m none hs, p)
                  (Swept-delete m key start _ hs p (
                    sweep_suffix m0 es m' fs so.1
                      (Holds-delete (state_key key start) m es below h.1)
                      (delete_count-IsQuiet m key start hs p q)))))
        | inr live ↦ rw h.0 (
            rw ek (
              rw (visit_count w wm key v start m none hs, live)
                (sweep_suffix m0 es m fs so.1 h.1 q)))
      ]
