-- ===== src/Operators/Counting/Watermark.antt =====
-- pkg/operators/window.go: what `ProcessWatermark` does with a well-formed state.
use tidemark.Prelude.{◌≡◌, refl, sym, ap, ◌∙◌, subst, ℤ, IsInt64, none, some, ◌++◌, map}
use tidemark.State.Encoding.{encode_ordered_int64}
use tidemark.State.Keyed.{Memory, get, iterate}
use tidemark.State.Keyed.Visits.{own_entries, All-get}
use tidemark.Operators.Windows.{WindowCount}
use tidemark.Operators.Layout.{watermark_state_key}
use tidemark.Operators.Counting.{
  Counts, Outcome, and_then, set_watermark, fire_all, purge, purge_visit, process_watermark,
}
use tidemark.Operators.Counting.Forms.{Form, mark, IsWellFormed}
use tidemark.Operators.Counting.Due.{timers_due, collect_due_timers_lem}
use tidemark.Operators.Counting.Invariant.{put-IsWellFormed, IsInRange}
use tidemark.Operators.Counting.Firing.{fired, delete_keys, fire_all-Fires}
use tidemark.Operators.Counting.Purging.{
  timers_due-IsReady, delete_keys-IsWellFormed, none_left_due,
}
use tidemark.Operators.Counting.Sweep.{IsQuiet, Swept, sweep_suffix}

pub set_watermark-IsWellFormed :
    (w : WindowCount) (wm : ℤ) (m : Memory)
    → IsInt64 wm
    → IsWellFormed w m
    → IsWellFormed w (set_watermark wm m)
unfolding set_watermark
set_watermark-IsWellFormed w wm m h wf =
    put-IsWellFormed w watermark_state_key (encode_ordered_int64 wm) m (mark wm h refl refl) wf

-- What a watermark does: `m` is the memory with the watermark in it.
pub record Advances (w : WindowCount) (r : IsInRange w) (wm : ℤ) (c : Counts) (o : Outcome)
    : Type 0 where
  pub good : o.0 ≡ none
  pub swept :
      Swept w r wm
        (delete_keys (timers_due wm (set_watermark wm c.memory)) (set_watermark wm c.memory))
        (o.1.memory, none)
  pub dropped : o.1.dropped ≡ c.dropped
  pub emitted :
      o.1.emitted
      ≡ c.emitted
        ++ map (fired w (set_watermark wm c.memory)) (timers_due wm (set_watermark wm c.memory))

purge-Swept :
    (w : WindowCount) (r : IsInRange w) (wm : ℤ) (m : Memory)
    → IsQuiet w r wm m
    → Swept w r wm m (iterate (purge_visit w wm) m none)
unfolding iterate
purge-Swept w r wm m q =
    let wf = q.formed in
    let h = own_entries m wf.sorted in
    sweep_suffix w r wm m m m (All-get (λ e. Form w m e.0 e.1) m m h wf.formed) wf.sorted h q

-- The end of ProcessWatermark, behind the timers.
purge-Advances :
    (w : WindowCount) (r : IsInRange w) (wm : ℤ) (c c1 : Counts)
    → let m = set_watermark wm c.memory in
      (c1.memory ≡ delete_keys (timers_due wm m) m)
      → IsQuiet w r wm (delete_keys (timers_due wm m) m)
      → (c1.dropped ≡ c.dropped)
      → (c1.emitted ≡ c.emitted ++ map (fired w m) (timers_due wm m))
      → Advances w r wm c (purge w wm c1)
unfolding purge
purge-Advances w r wm c c1 em q ed ee =
    let m = set_watermark wm c.memory in
    let m1 = delete_keys (timers_due wm m) m in
    let s =
      subst (λ x. Swept w r wm x (iterate (purge_visit w wm) x none)) (sym em)
        (purge-Swept w r wm m1 q) in
    record {
      good = s.good;
      swept = record {
        good = refl;
        is_quiet = s.is_quiet;
        kept = λ j h. s.kept j h ∙ ap (get j) em;
      };
      dropped = ed;
      emitted = ee;
    }

pub and_then_good :
    (o : Outcome) (next : Counts → Outcome) → o.0 ≡ none → and_then o next ≡ next o.1
and_then_good (none, c) next h = refl
and_then_good (some e, c) next h = absurd (cc (h))

-- On a well-formed state a watermark that is an int64, as the settings are, has no error. It sends, in order, the counts
-- of the windows whose timers are due; then nothing is gone but these timers and counts of windows to
-- purge, and the state is well-formed with no timer due.
pub process_watermark_lem :
    (w : WindowCount) (r : IsInRange w) (wm : ℤ) (c : Counts)
    → IsInt64 wm
    → IsWellFormed w c.memory
    → Advances w r wm c (process_watermark w wm c)
unfolding process_watermark
process_watermark_lem w r wm c h wf =
    let m = set_watermark wm c.memory in
    let c0 = record c { memory = m } in
    let wf0 = set_watermark-IsWellFormed w wm c.memory h wf in
    let due = timers_due wm m in
    let ready = timers_due-IsReady w wm m wf0 in
    let f = fire_all-Fires w due c0 ready in
    let q : IsQuiet w r wm (delete_keys due m) = record {
      formed = delete_keys-IsWellFormed w due m ready wf0;
      quiet = λ k v e. none_left_due wm k v m wf0.sorted e;
    } in
    rw (collect_due_timers_lem w wm m wf0) (
      subst (Advances w r wm c) (sym (and_then_good (fire_all w due c0) (purge w wm) f.good))
        (purge-Advances w r wm c (fire_all w due c0).1 f.memory q f.dropped f.emitted))
