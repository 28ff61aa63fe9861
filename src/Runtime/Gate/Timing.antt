-- ===== src/Runtime/Gate/Timing.antt =====
-- pkg/runtime/gate.go: event time through one element. If what each input has yet to deliver is on
-- time, then so are the output and what is left, whatever the element does.
use tidemark.Prelude.{
  ℕ, ◌<◌, ◌≡◌, sym, Bool, true, false, List, [], ◌∷◌, ◌++◌, ℤ, ◌≤ℤ◌, append_assoc, subst, arith,
  min_int64,
}
use tidemark.Core.{StreamElement, watermark_element, end_of_stream_element}
use tidemark.Runtime.Gate.{Gate, minimum, advance, drain_buffers, complete_alignment, close_output}
use tidemark.Runtime.Gate.Cases.{advance_cases, complete_alignment_cases, close_output_cases}
use tidemark.Runtime.Gate.Structure.{Bookkeeping, count_live-zero, IsBarrier, is_barrier}
use tidemark.Runtime.Gate.Flow.{OnTime, Rising, Rising-watermark, Rising-barrier, min_live-le}

-- What each live input has yet to deliver is on time from its watermark, which the output watermark
-- has not passed; an exhausted input has nothing left; and an alignment is for live inputs.
pub record Timing (inputs : ℕ) (eos : ℕ → Bool) (watermarks : ℕ → ℤ) (out : ℤ) (aligning : Bool)
    (aligned : ℕ → Bool) (rest : ℕ → List StreamElement) : Type 0 where
  pub on_time : (i : ℕ) → i < inputs → eos i ≡ false → OnTime (watermarks i) (rest i)
  pub behind : (i : ℕ) → i < inputs → eos i ≡ false → out ≤ℤ watermarks i
  pub finished : (i : ℕ) → i < inputs → eos i ≡ true → rest i ≡ []
  pub aligned_live : (i : ℕ) → aligned i ≡ true → eos i ≡ false
  pub begun : aligning ≡ true → (i : ℕ) × (aligned i ≡ true)

-- What the gate has put out, while it is open and after it has closed.
pub record Flow (closed : Bool) (out : ℤ) (es : List StreamElement) : Type 0 where
  pub going : closed ≡ false → Rising min_int64 es out
  pub ended :
      closed ≡ true
      → (fs : List StreamElement) × (es ≡ fs ++ end_of_stream_element ∷ [])
        × Rising min_int64 fs out

abbrev pub Timed : (ℕ → List StreamElement) → List StreamElement → Gate → Type 0
Timed rest emitted g =
    Timing g.inputs g.end_of_stream g.watermarks g.out g.aligning g.aligned_for rest
    × Flow g.closed g.out (emitted ++ g.pending)

-- The flow of an open gate that has just appended `e`.
pub open-Flow :
    (emitted es : List StreamElement) (e : StreamElement) (out : ℤ) {closed : Bool}
    → closed ≡ false
    → Rising min_int64 ((emitted ++ es) ++ e ∷ []) out
    → Flow closed out (emitted ++ (es ++ e ∷ []))
open-Flow emitted es e out c h = record {
  going = λ _. subst (λ fs. Rising min_int64 fs out) (append_assoc emitted es (e ∷ [])) h;
  ended = λ d. absurd (ground arith);
}

module _ (rest : ℕ → List StreamElement) (emitted : List StreamElement) where
  pub advance-Timed :
      (g : Gate)
      → Timed rest emitted g
      → g.closed ≡ false
      → Timed rest emitted (advance g) × ((advance g).closed ≡ false)
  advance-Timed g h c =
      advance_cases (λ a. Timed rest emitted a × (a.closed ≡ false)) g (λ _. (h, c))
        (λ up. (
          (
            record {
              on_time = h.0.on_time;
              behind = λ i lt live. min_live-le g.end_of_stream g.watermarks g.inputs i lt live;
              finished = h.0.finished;
              aligned_live = h.0.aligned_live;
              begun = h.0.begun;
            },
            open-Flow emitted g.pending (watermark_element (minimum g)) (minimum g) c (
                Rising-watermark min_int64 (emitted ++ g.pending) g.out (minimum g) (h.1.going c)
                  up),
          ),
          c,
        ))

  Rising-IsBarrier :
      (es : List StreamElement) (hi : ℤ) {e : StreamElement}
      → IsBarrier e
      → Rising min_int64 es hi
      → Rising min_int64 (es ++ e ∷ []) hi
  Rising-IsBarrier es hi (is_barrier {b}) h = Rising-barrier min_int64 es hi b h

  pub complete_alignment-Timed :
      (g : Gate)
      → Bookkeeping g
      → (g.aligning ≡ true → g.closed ≡ false)
      → Timed rest emitted g
      → Timed rest emitted (complete_alignment g)
  unfolding drain_buffers
  complete_alignment-Timed g v c h =
      complete_alignment_cases (Timed rest emitted) g (λ _. h)
        (λ on _. (
          record {
            on_time = h.0.on_time;
            behind = h.0.behind;
            finished = h.0.finished;
            aligned_live = λ i a. absurd (ground arith);
            begun = λ e. absurd (ground arith);
          },
          open-Flow emitted g.pending g.barrier g.out (c on)
              (Rising-IsBarrier (emitted ++ g.pending) g.out (v.carrying on) (h.1.going (c on))),
        ))

  -- Only a gate whose inputs are all exhausted closes, and then it is not aligning.
  pub close_output-Timed :
      (g : Gate)
      → Bookkeeping g
      → Timed rest emitted g
      → g.closed ≡ false
      → Timed rest emitted (close_output g)
        × ((close_output g).aligning ≡ true → (close_output g).closed ≡ false)
  close_output-Timed g v h c =
      close_output_cases (λ a. Timed rest emitted a × (a.aligning ≡ true → a.closed ≡ false)) g
        (h, λ _. c)
        (λ last _. (
          (
            h.0,
            record {
              going = λ d. absurd (ground arith);
              ended =
                  λ _. (emitted ++ g.pending, sym (append_assoc emitted g.pending _), h.1.going c);
            },
          ),
          λ on.
              let (i, a) = h.0.begun on in
              absurd (
                ground (
                  arith,
                  count_live-zero g.end_of_stream g.inputs i (ground (arith, v.counted)),
                  v.in_range i a,
                  h.0.aligned_live i a,
                )),
        ))
