-- ===== src/Runtime/Gate/EventTime.antt =====
-- pkg/runtime/gate.go: over a whole run, inputs that are on time give an output that is on time.
use mathlib.Core.Path.{fun_ext}
use tidemark.Prelude.{
  ℕ, ◌<◌, ◌≡◌, refl, sym, ap, ◌∙◌, Bool, true, false, List, [], ◌∷◌, ◌++◌, append_assoc, ◌==◌,
  ==_iff, subst, Bool-cases, inl, inr, arith, min_int64, ℤ,
}
use tidemark.Core.{StreamElement}
use tidemark.Runtime.Faults.{Faults}
use tidemark.Runtime.Gate.{Gate, Tagged, new_gate, deliver, holds_back, buffer, handle}
use tidemark.Runtime.Gate.Structure.{GateInv}
use tidemark.Runtime.Gate.Streams.{by, waiting, InRange, deliver-waiting}
use tidemark.Runtime.Gate.History.{Run, start, tick, play, output, replayed, tick_cases, play-keeps}
use tidemark.Runtime.Gate.Fifo.{
  RunInv, start-RunInv, tick-RunInv, handle_held, handle_passed, next_of, passes_empty,
  buffer-waiting, fetch_replay, fetch_merged,
}
use tidemark.Runtime.Gate.Flow.{OnTime, Rising-OnTime, Rising-end}
use tidemark.Runtime.Gate.Timing.{Flow, Timed}
use tidemark.Runtime.Gate.Passing.{deliver-Timed}

-- What input `i` has yet to have delivered, of a gate and what is still to arrive.
abbrev rest_of : Gate → List Tagged → ℕ → List StreamElement
rest_of g ms i = waiting g i ++ by i ms

-- The same before the element `t`, which stands next.
abbrev rest_with : Gate → Tagged → List Tagged → ℕ → List StreamElement
rest_with g t ms i = g.buffered i ++ (next_of t i ++ (by i g.replay ++ by i ms))

rest_with-buffer :
    (g : Gate) (t : Tagged) (ms : List Tagged) (i : ℕ)
    → rest_with g t ms i ≡ rest_of (buffer g t.input t.elem) ms i
rest_with-buffer g t ms i = rw (buffer-waiting g t i) (simp append_assoc)

rest_with_self :
    (g : Gate) (t : Tagged) (ms : List Tagged)
    → g.buffered t.input ≡ []
    → rest_with g t ms t.input ≡ t.elem ∷ rest_of g ms t.input
rest_with_self g t ms e = rw (e, (==_iff t.input t.input).1 refl)

rest_with-other :
    (g : Gate) (t : Tagged) (ms : List Tagged) (i : ℕ)
    → (t.input == i) ≡ false
    → rest_with g t ms i ≡ rest_of g ms i
rest_with-other g t ms i ne = rw ne (sym (append_assoc (g.buffered i) _ _))

handle-Timed :
    (g : Gate) (t : Tagged) (ms : List Tagged) (emitted : List StreamElement)
    → t.input < g.inputs
    → GateInv g
    → Timed (rest_with g t ms) emitted g
    → Timed (rest_of (handle g t) ms) emitted (handle g t)
handle-Timed g t ms emitted lt v h = elim (Bool-cases (holds_back g t.input)) [
  | inl hold ↦
      subst (λ k. Timed (rest_of k ms) emitted k) (sym (handle_held g t hold))
        (subst (λ f. Timed f emitted g) (fun_ext (rest_with-buffer g t ms)) h)
  | inr pass ↦
      subst (λ k. Timed (rest_of k ms) emitted k) (sym (handle_passed g t pass))
        (subst (λ f. Timed f emitted (deliver g t.input t.elem))
          (fun_ext
            (λ i. ap (λ es. es ++ by i ms) (sym (deliver-waiting g t.input t.elem i lt v.books))))
          (deliver-Timed (rest_with g t ms) (rest_of g ms) emitted g t.input lt v pass
            (rest_with-other g t ms) h t.elem
            (rest_with_self g t ms (passes_empty g t.input v pass))))
]

record InTime (n : ℕ) (arrivals : List Tagged) (r : Run) : Type 0 where
  run : RunInv n arrivals r
  timed : Timed (rest_of r.gate r.merged) r.emitted r.gate

tick-InTime :
    (n : ℕ) (arrivals : List Tagged) (r : Run) → InTime n arrivals r → InTime n arrivals (tick r)
tick-InTime n arrivals r v = record {
  run = tick-RunInv n arrivals r v.run;
  timed =
      tick_cases (λ s. Timed (rest_of s.gate s.merged) s.emitted s.gate) r v.timed
        (λ e es p. (
          v.timed.0,
          subst (λ out. Flow r.gate.closed r.gate.out out)
              (sym (append_assoc r.emitted (e ∷ []) es ∙ rw p)) v.timed.1,
        ))
        (λ t ts _ p.
          handle-Timed (replayed r.gate ts) t r.merged r.emitted
            (rw v.run.inputs (subst (InRange n) p v.run.replays).0)
            (record { books = v.run.inv.books; awaited = v.run.inv.awaited })
            (subst (λ f. Timed f r.emitted r.gate)
              (fun_ext (λ i. rw p (sym (fetch_replay (r.gate.buffered i) (by i r.merged) t ts i))))
              v.timed))
        (λ t ts _ none_left p.
          handle-Timed r.gate t ts r.emitted
            (rw v.run.inputs (subst (InRange n) p v.run.arriving).0) v.run.inv
            (subst (λ f. Timed f r.emitted r.gate)
              (fun_ext (λ i. rw (none_left, p) (sym (fetch_merged (r.gate.buffered i) t ts i))))
              v.timed));
}

start-Timed :
    (n : ℕ) (fs : Faults) (arrivals : List Tagged)
    → ((i : ℕ) → i < n → OnTime min_int64 (by i arrivals))
    → Timed (rest_of (new_gate n fs) arrivals) [] (new_gate n fs)
unfolding new_gate by
start-Timed n fs arrivals h = (
  record {
    on_time = λ i lt _. h i lt;
    behind = λ i _ _. omega arith;
    finished = λ i _ dead. absurd (ground arith);
    aligned_live = λ i a. absurd (ground arith);
    begun = λ e. absurd (ground arith);
  },
  record { going = λ _. refl; ended = λ c. absurd (ground arith) },
)

Flow-OnTime :
    (closed : Bool) (out : ℤ) (es : List StreamElement) → Flow closed out es → OnTime min_int64 es
Flow-OnTime true out es f =
    let (fs, e, h) = f.ended refl in
    subst (OnTime min_int64) (sym e) (Rising-end min_int64 fs out h)
Flow-OnTime false out es f = Rising-OnTime min_int64 es out (f.going refl)

-- If every input's stream is on time (no record at or below a watermark before it, watermarks that
-- do not fall, nothing behind the end of stream, event times above the least int64), then in every
-- round of every run the gate's output is on time too, however the inputs are interleaved and
-- aligned.
pub play-OnTime :
    (n : ℕ) (fs : Faults) (arrivals : List Tagged) (k : ℕ)
    → InRange n arrivals
    → ((i : ℕ) → i < n → OnTime min_int64 (by i arrivals))
    → OnTime min_int64 (output (play k (start n fs arrivals)))
play-OnTime n fs arrivals k h on =
    Flow-OnTime _ _ _
      (play-keeps (InTime n arrivals) (tick-InTime n arrivals) k (start n fs arrivals) (record {
        run = start-RunInv n fs arrivals h;
        timed = start-Timed n fs arrivals on;
      })).timed.1
