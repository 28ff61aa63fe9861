-- ===== src/Runtime/Gate/Output.antt =====
-- pkg/runtime/gate.go: what delivering one element adds to the output, by kinds of element.
use tidemark.Prelude.{
  ℕ, ◌<◌, ◌≡◌, refl, sym, ap, ◌∙◌, List, [], ◌∷◌, ◌++◌, append-nil, append_assoc, map, subst,
  Bool-cases, inl, inr,
}
use tidemark.Core.{
  Record, StreamElement, record_element, watermark_element, barrier_element, end_of_stream_element,
}
use tidemark.Runtime.Gate.{
  Gate, Tagged, advance, drain_buffers, complete_alignment, mark_aligned, mark_exhausted,
  close_output, set_watermark, deliver, holds_back,
}
use tidemark.Runtime.Gate.Cases.{
  advance_cases, complete_alignment_cases, on_barrier_cases, close_output_cases,
  on_end_of_stream_cases,
}
use tidemark.Runtime.Gate.Structure.{
  Bookkeeping, IsBarrier, is_barrier, mark_aligned-Bookkeeping, mark_exhausted-Bookkeeping,
  close_output-Bookkeeping,
}
use tidemark.Runtime.Faults.{Faults}
use tidemark.Runtime.Gate.Streams.{by, waiting, InRange}
use tidemark.Runtime.Gate.History.{
  Run, start, handled, tick, play, output, replayed, tick_cases, play-keeps,
}
use tidemark.Runtime.Gate.Fifo.{RunInv, start-RunInv, tick-RunInv, handle_held, handle_passed}
use tidemark.Runtime.Gate.{new_gate}
use mathlib.Core.List.{map-append}

-- The records of a stream, in order.
unfoldable pub records : List StreamElement → List Record
records [] = []
records (record_element r ∷ es) = r ∷ records es
records (watermark_element w ∷ es) = records es
records (barrier_element b ∷ es) = records es
records (end_of_stream_element ∷ es) = records es

records-append : (es fs : List StreamElement) → records (es ++ fs) ≡ records es ++ records fs
unfolding records
records-append [] fs = refl
records-append (record_element r ∷ es) fs = ap (λ rs. r ∷ rs) (records-append es fs)
records-append (watermark_element w ∷ es) fs = records-append es fs
records-append (barrier_element b ∷ es) fs = records-append es fs
records-append (end_of_stream_element ∷ es) fs = records-append es fs

abbrev pub elems : List Tagged → List StreamElement
elems = map (λ t. t.elem)

-- The records of a gate's pending queue are these.
abbrev Holds : List Record → Gate → Type 0
Holds rs g = records g.pending ≡ rs

records-control :
    (es : List StreamElement) (e : StreamElement) {rs : List Record}
    → records (e ∷ []) ≡ []
    → records es ≡ rs
    → records (es ++ e ∷ []) ≡ rs
records-control es e c h = records-append es (e ∷ []) ∙ rw (c, append-nil) h

records-IsBarrier : {e : StreamElement} → IsBarrier e → records (e ∷ []) ≡ []
unfolding records
records-IsBarrier is_barrier = refl

advance-Holds : (rs : List Record) (g : Gate) → Holds rs g → Holds rs (advance g)
unfolding records
advance-Holds rs g h = advance_cases (Holds rs) g (λ _. h) (λ _. records-control g.pending _ refl h)

complete_alignment-Holds :
    (rs : List Record) (g : Gate) → Bookkeeping g → Holds rs g → Holds rs (complete_alignment g)
unfolding drain_buffers
complete_alignment-Holds rs g v h =
    complete_alignment_cases (Holds rs) g (λ _. h)
      (λ on _. records-control g.pending g.barrier (records-IsBarrier (v.carrying on)) h)

-- Delivering a record adds that record, and delivering anything else adds no record.
pub deliver-records :
    (g : Gate) (i : ℕ) (e : StreamElement)
    → i < g.inputs
    → Bookkeeping g
    → records (deliver g i e).pending ≡ records g.pending ++ records (e ∷ [])
unfolding deliver records
deliver-records g i (record_element r) lt v = records-append g.pending _
deliver-records g i (watermark_element w) lt v =
    rw append-nil (advance-Holds _ (set_watermark g i w) refl)
deliver-records g i (barrier_element b) lt v = rw append-nil (
    on_barrier_cases (Holds (records g.pending)) g i b (λ _ _. unfold mark_aligned in refl)
      (complete_alignment-Holds _ (mark_aligned g i b) (mark_aligned-Bookkeeping g i b lt v)
        (unfold mark_aligned in refl)))
deliver-records g i end_of_stream_element lt v = rw append-nil (
    on_end_of_stream_cases (Holds (records g.pending)) g i (λ _. refl)
      (λ first.
        let w = mark_exhausted-Bookkeeping g i lt first v in
        let a = advance (mark_exhausted g i) in
        let h =
          advance-Holds (records g.pending) (mark_exhausted g i) (unfold mark_exhausted in refl) in
        complete_alignment-Holds _ (close_output a)
          (close_output-Bookkeeping a (advance_cases Bookkeeping _ (λ _. w) (λ _. w)))
          (close_output_cases (Holds _) a h (λ _ _. records-control a.pending _ refl h))))

-- One round moves the output on by what it delivered.
logged-records :
    (r : Run) (g : Gate) (t : Tagged) (ms : List Tagged)
    → t.input < g.inputs
    → Bookkeeping g
    → records (r.emitted ++ g.pending) ≡ records (elems r.log)
    → records (output (handled r g t ms)) ≡ records (elems (handled r g t ms).log)
logged-records r g t ms lt v h = elim (Bool-cases (holds_back g t.input)) [
  | inl hold ↦ rw (hold, handle_held g t hold) h
  | inr pass ↦
      rw
        (
          pass,
          handle_passed g t pass,
          records-append r.emitted (deliver g t.input t.elem).pending,
          deliver-records g t.input t.elem lt v,
          map-append,
          records-append (elems r.log),
          ← h,
          records-append r.emitted g.pending,
        )
        (sym (append_assoc (records r.emitted) _ _))
]

-- The records that a run has put out or has pending.
record Told (n : ℕ) (arrivals : List Tagged) (r : Run) : Type 0 where
  run : RunInv n arrivals r
  told : records (output r) ≡ records (elems r.log)

tick-Told :
    (n : ℕ) (arrivals : List Tagged) (r : Run) → Told n arrivals r → Told n arrivals (tick r)
tick-Told n arrivals r v = record {
  run = tick-RunInv n arrivals r v.run;
  told =
      tick_cases (λ s. records (output s) ≡ records (elems s.log)) r v.told
        (λ e es p. ap records (append_assoc r.emitted (e ∷ []) es ∙ rw p) ∙ v.told)
        (λ t ts _ p.
          logged-records r (replayed r.gate ts) t r.merged
            (rw v.run.inputs (subst (InRange n) p v.run.replays).0) v.run.inv.books v.told)
        (λ t ts _ _ p.
          logged-records r r.gate t ts (rw v.run.inputs (subst (InRange n) p v.run.arriving).0)
            v.run.inv.books v.told);
}

-- In every round of every run: for each input, what was delivered, what is held back or replayed and
-- what is still to arrive are together what the input sends, in its order; and the records of the
-- output are the records that were delivered, in that order.
pub play-streams :
    (n : ℕ) (fs : Faults) (arrivals : List Tagged) (k : ℕ)
    → InRange n arrivals
    → let r = play k (start n fs arrivals) in
      ((i : ℕ) → by i r.log ++ (waiting r.gate i ++ by i r.merged) ≡ by i arrivals)
      × (records (output r) ≡ records (elems r.log))
play-streams n fs arrivals k h = (v.run.streams, v.told)
  where
    v : Told n arrivals (play k (start n fs arrivals))
    v =
        play-keeps (Told n arrivals) (tick-Told n arrivals) k (start n fs arrivals)
          (record { run = start-RunInv n fs arrivals h; told = unfold new_gate in refl })
