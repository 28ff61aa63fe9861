-- ===== src/Runtime/Gate/Tests.antt =====
-- pkg/runtime/gate.go: two inputs whose barriers and ends of stream cross.
use tidemark.Prelude.{
  ℕ, zero, suc, ◌+◌, ◌<◌, ◌≡◌, refl, ℤ, pos, true, false, none, some, List, [], ◌∷◌, ◌++◌, ◌⊎◌,
  if◌then◌else◌, ◌≤ℤ◌, ◌<ℤ◌, min_int64, max_int64, arith,
}
use tidemark.Core.{
  StreamElement, record_element, watermark_element, barrier_element, end_of_stream_element,
}
use tidemark.Runtime.Faults.{Faults, during_alignment}
use tidemark.Runtime.Gate.{
  Gate, Tagged, new_gate, deliver, holds_back, handle, round, stopped, min_live, on_barrier,
  awaiting_barrier, mark_aligned, any_awaited, complete_alignment, drain_buffers, held,
  on_end_of_stream, close_output, mark_exhausted, advance, minimum, recv, Received,
}
use tidemark.Runtime.Gate.Structure.{GateInv, new_gate-GateInv, handle-GateInv}
use tidemark.Runtime.Gate.Streams.{by, waiting, InRange}
use tidemark.Runtime.Gate.History.{Run, start, play, output}
use tidemark.Runtime.Gate.Output.{records, elems, play-streams}
use tidemark.Runtime.Gate.Flow.{OnTime}
use tidemark.Runtime.Gate.EventTime.{play-OnTime}
use tidemark.Runtime.Gate.Epochs.{barriers, play-barriers}
use tidemark.Runtime.Gate.Completion.{has_end, play-completes}
use tidemark.Runtime.Gate.Watermarks.{Climbs, ends, play-watermarks, advance_lem}
use tidemark.Runtime.Gate.Progress.{total_length, budget, recv_total}

abbrev at : ℤ → StreamElement
at t = record_element (record { key = []; value = []; event_time = t })

abbrev barrier_1 : StreamElement
barrier_1 = barrier_element (record { checkpoint_id = pos 1; timestamp = pos 0 })

abbrev from : ℕ → StreamElement → Tagged
from i e = record { input = i; elem = e }

-- Input 0 runs ahead: what it sends behind its barrier is held back for input 1's.
abbrev after_first : List Tagged
after_first =
    from 0 (watermark_element (pos 3))
    ∷ from 0 barrier_1
    ∷ from 0 (at (pos 9))
    ∷ from 1 (at (pos 1))
    ∷ from 0 end_of_stream_element
    ∷ from 1 (watermark_element (pos 2))
    ∷ from 1 barrier_1
    ∷ from 1 (at (pos 5))
    ∷ from 1 end_of_stream_element
    ∷ []

abbrev crossing : List Tagged
crossing = from 0 (at (pos 3)) ∷ after_first

abbrev no_faults : Faults
no_faults = record { injector = none; id = record { vertex_id = "map"; index = 0 } }

crossing-InRange : InRange 2 crossing
crossing-InRange = (
  omega arith,
  (
    omega arith,
    (
      omega arith,
      (
        omega arith,
        (
          omega arith,
          (omega arith, (omega arith, (omega arith, (omega arith, (omega arith, tt))))),
        ),
      ),
    ),
  ),
)

crossing-OnTime : (i : ℕ) → i < 2 → OnTime min_int64 (by i crossing)
unfolding by
crossing-OnTime zero lt = (omega arith, (omega arith, (omega arith, refl)))
crossing-OnTime (suc zero) lt = (omega arith, (omega arith, (omega arith, refl)))
crossing-OnTime (suc (suc i)) lt = absurd (omega arith)

crossing-ends : (i : ℕ) → i < 2 → has_end (by i crossing) ≡ true
unfolding by has_end
crossing-ends zero lt = refl
crossing-ends (suc zero) lt = refl
crossing-ends (suc (suc i)) lt = absurd (omega arith)

-- The run after `k` rounds.
abbrev crossed : ℕ → Run
crossed k = play k (start 2 no_faults crossing)

play-OnTime_example : OnTime min_int64 (output (crossed 30))
play-OnTime_example = play-OnTime 2 no_faults crossing 30 crossing-InRange crossing-OnTime

crossed_live : (crossed 6).gate.end_of_stream 0 ≡ false
unfolding play round new_gate handle deliver advance min_live on_barrier awaiting_barrier
    mark_aligned any_awaited during_alignment
crossed_live = refl

-- Input 0 is held back at this point.
play-barriers_example :
    let r = crossed 6 in
    (holds_back r.gate 0 ≡ false → barriers (by 0 r.log) ≡ barriers (output r))
    × (holds_back r.gate 0 ≡ true → barriers (by 0 r.log) ≡ suc (barriers (output r)))
play-barriers_example =
    play-barriers 2 no_faults crossing 6 0 crossing-InRange (omega arith) crossed_live

play-streams_example :
    let r = crossed 6 in
    ((i : ℕ) → by i r.log ++ (waiting r.gate i ++ by i r.merged) ≡ by i crossing)
    × (records (output r) ≡ records (elems r.log))
play-streams_example = play-streams 2 no_faults crossing 6 crossing-InRange

crossed_stopped : round (crossed 30).gate (crossed 30).merged ≡ stopped
unfolding play round new_gate handle deliver advance min_live on_barrier awaiting_barrier
    mark_aligned any_awaited during_alignment complete_alignment drain_buffers held on_end_of_stream
    close_output mark_exhausted
crossed_stopped = refl

crossed_unhurt : (crossed 30).gate.err ≡ none
unfolding play round new_gate handle deliver advance min_live on_barrier awaiting_barrier
    mark_aligned any_awaited during_alignment complete_alignment drain_buffers held on_end_of_stream
    close_output mark_exhausted
crossed_unhurt = refl

play-completes_example :
    let r = crossed 30 in
    (r.gate.aligning ≡ false)
    × ((i : ℕ) → by i r.log ≡ by i crossing)
    × (r.gate.pending ≡ [])
    × (r.gate.closed ≡ true)
play-completes_example =
    play-completes 2 no_faults crossing 30 crossing-InRange (omega arith) crossing-ends
      crossed_stopped crossed_unhurt

play-watermarks_example :
    let r = crossed 30 in
    Climbs min_int64 (output r) r.gate.out × (ends (output r) ≡ (if r.gate.closed then 1 else 0))
play-watermarks_example = play-watermarks 2 no_faults crossing 30 crossing-InRange

-- Both inputs have sent a watermark.
abbrev both_told : Gate
both_told = record (new_gate 2 no_faults) { watermarks = λ i. pos (3 + i) }

advance_lem_example :
    let g = both_told in
    ((advance g ≡ g) × (minimum g ≤ℤ g.out))
    ⊎ (((advance g).pending ≡ g.pending ++ watermark_element (advance g).out ∷ [])
        × (g.out <ℤ (advance g).out)
        × ((i : ℕ) → i < g.inputs → g.end_of_stream i ≡ false → (advance g).out ≤ℤ g.watermarks i)
        × (((advance g).out ≡ max_int64)
            ⊎ ((i : ℕ) × (i < g.inputs)
                × (g.end_of_stream i ≡ false)
                × ((advance g).out ≡ g.watermarks i))))
advance_lem_example = advance_lem both_told

crossing-budget : budget (new_gate 2 no_faults) crossing ≡ 110
unfolding new_gate total_length
crossing-budget = refl

recv_total_example : (x : Received) × (recv 1000 (new_gate 2 no_faults) crossing ≡ some x)
unfolding new_gate
recv_total_example =
    recv_total 1000 (new_gate 2 no_faults) crossing tt crossing-InRange
      (omega (arith, crossing-budget))

handle-GateInv_example : GateInv (handle (new_gate 2 no_faults) (from 0 barrier_1))
handle-GateInv_example =
    handle-GateInv (new_gate 2 no_faults) (from 0 barrier_1) (unfold new_gate in omega arith)
      (new_gate-GateInv 2 no_faults)
