-- ===== src/Runtime/Gate/Epochs.antt =====
-- pkg/runtime/gate.go: barrier alignment. Whatever the gate lets through from an input has as many
-- barriers before it in the output as it had before it on that input.
use tidemark.Prelude.{
  ℕ, zero, suc, ◌+◌, ◌<◌, ◌≡◌, refl, sym, ap, ◌∙◌, Bool, true, false, List, [], ◌∷◌, ◌++◌,
  append_assoc, ◌==◌, if◌then◌else◌, subst, Bool-cases, inl, inr, arith,
}
use tidemark.Core.{
  Barrier, StreamElement, record_element, watermark_element, barrier_element, end_of_stream_element,
}
use tidemark.Runtime.Faults.{Faults}
use tidemark.Runtime.Gate.{
  Gate, Tagged, new_gate, advance, any_awaited, drain_buffers, complete_alignment, mark_aligned,
  mark_exhausted, close_output, set_watermark, deliver, holds_back,
}
use tidemark.Runtime.Gate.Cases.{
  advance_cases, complete_alignment_cases, on_barrier_cases, close_output_cases,
  on_end_of_stream_cases,
}
use tidemark.Runtime.Gate.Structure.{
  Bookkeeping, GateInv, IsBarrier, is_barrier, mark_aligned-Bookkeeping, mark_exhausted-Bookkeeping,
  close_output-Bookkeeping,
}
use tidemark.Runtime.Gate.Streams.{by, by-append, InRange}
use tidemark.Runtime.Gate.Ending.{deliver-Ended}
use tidemark.Runtime.Gate.History.{
  Run, start, handled, tick, play, output, replayed, tick_cases, play-keeps,
}
use tidemark.Runtime.Gate.Fifo.{
  RunInv, start-RunInv, tick-RunInv, handle_held, handle_passed, by-one,
}

-- How many barriers a stream has.
unfoldable pub barriers : List StreamElement → ℕ
barriers [] = 0
barriers (record_element r ∷ es) = barriers es
barriers (watermark_element w ∷ es) = barriers es
barriers (barrier_element b ∷ es) = suc (barriers es)
barriers (end_of_stream_element ∷ es) = barriers es

pub barriers-append : (es fs : List StreamElement) → barriers (es ++ fs) ≡ barriers es + barriers fs
unfolding barriers
barriers-append [] fs = omega arith
barriers-append (record_element r ∷ es) fs = barriers-append es fs
barriers-append (watermark_element w ∷ es) fs = barriers-append es fs
barriers-append (barrier_element b ∷ es) fs = omega (arith, barriers-append es fs)
barriers-append (end_of_stream_element ∷ es) fs = barriers-append es fs

barriers-IsBarrier : {e : StreamElement} → IsBarrier e → barriers (e ∷ []) ≡ 1
unfolding barriers
barriers-IsBarrier is_barrier = refl

abbrev pub one_if : Bool → ℕ
one_if b = if b then 1 else 0

-- The barriers that the gate has put into its pending queue, with the one that input `i` is held for.
abbrev due : Gate → ℕ → ℕ
due g i = barriers g.pending + one_if (g.aligned_for i)

all_aligned :
    (eos aligned : ℕ → Bool) (n i : ℕ)
    → any_awaited eos aligned n ≡ false
    → i < n
    → eos i ≡ false
    → aligned i ≡ true
unfolding any_awaited
all_aligned eos aligned zero i h lt live = absurd (omega arith)
all_aligned eos aligned (suc n) i h lt live = ground (arith, all_aligned eos aligned n i)

-- While input `i` is live, `d` barriers are due to it.
abbrev Due : ℕ → ℕ → Gate → Type 0
Due i d g = g.end_of_stream i ≡ false → due g i ≡ d

complete_alignment-Due :
    (g : Gate) (i d : ℕ) → i < g.inputs → Bookkeeping g → Due i d g → Due i d (complete_alignment g)
unfolding drain_buffers
complete_alignment-Due g i d lt v h =
    complete_alignment_cases (Due i d) g (λ _. h)
      (λ on all live. ground (
        arith,
        h live,
        barriers-append g.pending (g.barrier ∷ []),
        barriers-IsBarrier (v.carrying on),
        all_aligned g.end_of_stream g.aligned_for g.inputs i all lt live,
      ))

advance-Due : (g : Gate) (i d : ℕ) → Due i d g → Due i d (advance g)
unfolding barriers
advance-Due g i d h =
    advance_cases (Due i d) g (λ _. h)
      (λ _ live. omega (arith, h live, barriers-append g.pending (watermark_element _ ∷ [])))

mark_aligned-due :
    (g : Gate) (j i : ℕ) (b : Barrier)
    → g.aligned_for j ≡ false
    → due (mark_aligned g j b) i ≡ due g i + one_if (j == i)
unfolding mark_aligned
mark_aligned-due g j i b free = ground arith

close_output-Due : (g : Gate) (i d : ℕ) → Due i d g → Due i d (close_output g)
unfolding barriers
close_output-Due g i d h =
    close_output_cases (Due i d) g h
      (λ _ _ live. omega (arith, h live, barriers-append g.pending (end_of_stream_element ∷ [])))

-- An input that is not held back is not aligned.
pub not_aligned : (g : Gate) (i : ℕ) → GateInv g → holds_back g i ≡ false → g.aligned_for i ≡ false
not_aligned g i v pass = elim (Bool-cases g.aligning) [
  | inl on ↦ ground arith
  | inr off ↦ v.idle off i
]

deliver-Due :
    (g : Gate) (j : ℕ) (e : StreamElement) (i : ℕ)
    → j < g.inputs
    → i < g.inputs
    → GateInv g
    → holds_back g j ≡ false
    → Due i (due g i + (if j == i then barriers (e ∷ []) else 0)) (deliver g j e)
unfolding deliver barriers
deliver-Due g j (record_element r) i jn lt v pass =
    λ _. ground (arith, barriers-append g.pending (record_element r ∷ []))
deliver-Due g j (watermark_element w) i jn lt v pass =
    advance-Due (set_watermark g j w) i _ (λ _. ground arith)
deliver-Due g j (barrier_element b) i jn lt v pass =
    let m = mark_aligned-due g j i b (not_aligned g j v pass) in
    on_barrier_cases (Due i _) g j b (λ _ _ _. ground (arith, m))
      (complete_alignment-Due (mark_aligned g j b) i _ (unfold mark_aligned in lt)
        (mark_aligned-Bookkeeping g j b jn v.books) (λ _. ground (arith, m)))
deliver-Due g j end_of_stream_element i jn lt v pass =
    on_end_of_stream_cases (Due i _) g j (λ _ _. ground arith)
      (λ first.
        let w = mark_exhausted-Bookkeeping g j jn first v.books in
        let a = advance (mark_exhausted g j) in
        let wa = advance_cases Bookkeeping (mark_exhausted g j) (λ _. w) (λ _. w) in
        let da =
          advance-Due (mark_exhausted g j) i (due g i + (if j == i then 0 else 0))
            (λ _. unfold mark_exhausted in ground arith) in
        let ln : i < (mark_exhausted g j).inputs = unfold mark_exhausted in lt in
        let la =
          close_output_cases (λ h. i < h.inputs) a
            (advance_cases (λ h. i < h.inputs) (mark_exhausted g j) (λ _. ln) (λ _. ln))
            (λ _ _. advance_cases (λ h. i < h.inputs) (mark_exhausted g j) (λ _. ln) (λ _. ln)) in
        complete_alignment-Due (close_output a) i _ la (close_output-Bookkeeping a wa)
          (close_output-Due a i _ da))

barriers-next :
    (i : ℕ) (log : List Tagged) (t : Tagged)
    → barriers (by i (log ++ t ∷ []))
      ≡ barriers (by i log) + (if t.input == i then barriers (t.elem ∷ []) else 0)
unfolding barriers
barriers-next i log t =
    ap barriers (by-append i log (t ∷ []))
    ∙ barriers-append (by i log) (by i (t ∷ []))
    ∙ ap (λ k. barriers (by i log) + k) (ap barriers (by-one t i) ∙ ground arith)

-- The barriers delivered from every live input are those in the output and the one it waits behind.
abbrev InStep : ℕ → List Tagged → List StreamElement → Gate → Type 0
InStep n log emitted g =
    (i : ℕ)
    → i < n
    → g.end_of_stream i ≡ false
    → barriers (by i log) ≡ barriers (emitted ++ g.pending) + one_if (g.aligned_for i)

handled-InStep :
    (n : ℕ) (r : Run) (g : Gate) (t : Tagged) (ms : List Tagged)
    → t.input < n
    → g.inputs ≡ n
    → GateInv g
    → InStep n r.log r.emitted g
    → let r' = handled r g t ms in InStep n r'.log r'.emitted r'.gate
handled-InStep n r g t ms lt same v h i il live = elim (Bool-cases (holds_back g t.input)) [
  | inl hold ↦ rw (hold, handle_held g t hold) (h i il (rw (handle_held g t hold) at live))
  | inr pass ↦
      let p = handle_passed g t pass in
      let live' : (deliver g t.input t.elem).end_of_stream i ≡ false = rw p at live in
      let was : g.end_of_stream i ≡ false = ground (arith, deliver-Ended g t.input t.elem i) in
      rw (pass, p)
        (omega (
          arith,
          barriers-next i r.log t,
          h i il was,
          deliver-Due g t.input t.elem i (rw same lt) (rw same il) v pass live',
          barriers-append r.emitted g.pending,
          barriers-append r.emitted (deliver g t.input t.elem).pending,
        ))
]

record Aligned (n : ℕ) (arrivals : List Tagged) (r : Run) : Type 0 where
  run : RunInv n arrivals r
  in_step : InStep n r.log r.emitted r.gate

tick-Aligned :
    (n : ℕ) (arrivals : List Tagged) (r : Run) → Aligned n arrivals r → Aligned n arrivals (tick r)
tick-Aligned n arrivals r v = record {
  run = tick-RunInv n arrivals r v.run;
  in_step =
      tick_cases (λ s. InStep n s.log s.emitted s.gate) r v.in_step
        (λ e es p i il live.
          v.in_step i il live
          ∙ ap (λ out. barriers out + one_if (r.gate.aligned_for i))
              (sym (append_assoc r.emitted (e ∷ []) es ∙ rw p)))
        (λ t ts _ p.
          handled-InStep n r (replayed r.gate ts) t r.merged (subst (InRange n) p v.run.replays).0
            v.run.inputs (record { books = v.run.inv.books; awaited = v.run.inv.awaited })
            v.in_step)
        (λ t ts _ _ p.
          handled-InStep n r r.gate t ts (subst (InRange n) p v.run.arriving).0 v.run.inputs
            v.run.inv v.in_step);
}

-- In every round of every run, for every live input that the gate does not hold back, the output has
-- as many barriers as were delivered from that input: what it sends next belongs to the same epoch
-- on both sides of the gate. A live input that is held back is exactly one barrier ahead.
pub play-barriers :
    (n : ℕ) (fs : Faults) (arrivals : List Tagged) (k i : ℕ)
    → InRange n arrivals
    → i < n
    → let r = play k (start n fs arrivals) in
      r.gate.end_of_stream i ≡ false
      → ((holds_back r.gate i ≡ false → barriers (by i r.log) ≡ barriers (output r))
          × (holds_back r.gate i ≡ true → barriers (by i r.log) ≡ suc (barriers (output r))))
play-barriers n fs arrivals k i h il live = (
  (λ pass. ground (arith, v.in_step i il live, not_aligned g i v.run.inv pass)),
  (λ hold. ground (arith, v.in_step i il live)),
)
  where
    v : Aligned n arrivals (play k (start n fs arrivals))
    v = play-keeps (Aligned n arrivals) (tick-Aligned n arrivals) k (start n fs arrivals) (record {
      run = start-RunInv n fs arrivals h;
      in_step = λ j _ _. unfold new_gate by barriers in refl;
    })

    g : Gate
    g = (play k (start n fs arrivals)).gate
