-- ===== src/Runtime/Gate/Ending.antt =====
-- pkg/runtime/gate.go: which inputs are exhausted, and what a run has of each input when the channel
-- is closed.
use tidemark.Prelude.{ℕ, ◌≡◌, Bool, true, false, ◌&&◌, ◌||◌, ◌==◌, arith}
use tidemark.Core.{
  StreamElement, record_element, watermark_element, barrier_element, end_of_stream_element,
}
use tidemark.Runtime.Gate.{
  Gate, advance, drain_buffers, complete_alignment, mark_aligned, mark_exhausted, set_watermark,
  deliver,
}
use tidemark.Runtime.Gate.Cases.{
  advance_cases, complete_alignment_cases, on_barrier_cases, close_output_cases,
  on_end_of_stream_cases,
}

abbrev pub is_end : StreamElement → Bool
is_end (record_element r) = false
is_end (watermark_element w) = false
is_end (barrier_element b) = false
is_end end_of_stream_element = true

-- Whether input `i` is exhausted is `b`.
abbrev Ended : ℕ → Bool → Gate → Type 0
Ended i b g = g.end_of_stream i ≡ b

complete_alignment-Ended :
    (i : ℕ) (b : Bool) (g : Gate) → Ended i b g → Ended i b (complete_alignment g)
unfolding drain_buffers
complete_alignment-Ended i b g h = complete_alignment_cases (Ended i b) g (λ _. h) (λ _ _. h)

advance-Ended : (i : ℕ) (b : Bool) (g : Gate) → Ended i b g → Ended i b (advance g)
advance-Ended i b g h = advance_cases (Ended i b) g (λ _. h) (λ _. h)

-- An input is exhausted once its end of stream has been delivered, and by nothing else.
pub deliver-Ended :
    (g : Gate) (j : ℕ) (e : StreamElement) (i : ℕ)
    → (deliver g j e).end_of_stream i ≡ (g.end_of_stream i || (is_end e && (j == i)))
unfolding deliver
deliver-Ended g j (record_element r) i = ground arith
deliver-Ended g j (watermark_element w) i = advance-Ended i _ (set_watermark g j w) (ground arith)
deliver-Ended g j (barrier_element b) i =
    on_barrier_cases (Ended i (g.end_of_stream i || false)) g j b
      (λ _ _. unfold mark_aligned in ground arith)
      (complete_alignment-Ended i _ (mark_aligned g j b) (unfold mark_aligned in ground arith))
deliver-Ended g j end_of_stream_element i =
    on_end_of_stream_cases (Ended i (g.end_of_stream i || (j == i))) g j (λ again. ground arith)
      (λ _.
        let a =
          advance-Ended i (g.end_of_stream i || (j == i)) (mark_exhausted g j)
            (unfold mark_exhausted in ground arith) in
        complete_alignment-Ended i _ _
          (close_output_cases (Ended i _) (advance (mark_exhausted g j)) a (λ _ _. a)))
