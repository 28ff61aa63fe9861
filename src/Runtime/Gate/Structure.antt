-- ===== src/Runtime/Gate/Structure.antt =====
-- pkg/runtime/gate.go: what holds of a gate between two elements, and that every element keeps it.
use tidemark.Prelude.{
  ℕ, zero, suc, ◌+◌, ◌<◌, ◌≡◌, refl, sym, Bool, true, false, List, [], ltb, if◌then◌else◌, if_cases,
  update, arith,
}
use tidemark.Core.{
  Barrier, StreamElement, record_element, watermark_element, barrier_element, end_of_stream_element,
}
use tidemark.Runtime.Faults.{Faults}
use tidemark.Runtime.Gate.{
  Gate, Tagged, new_gate, any_awaited, drain_buffers, complete_alignment, mark_aligned, on_barrier,
  mark_exhausted, close_output, on_end_of_stream, deliver, holds_back, buffer, handle,
}
use tidemark.Runtime.Gate.Cases.{
  advance_cases, complete_alignment_cases, on_barrier_cases, close_output_cases,
  on_end_of_stream_cases, handle_cases,
}

-- The live inputs among the first `n`.
pub count_live : (ℕ → Bool) → ℕ → ℕ
count_live eos zero = 0
count_live eos (suc i) = count_live eos i + (if eos i then 0 else 1)

pub data IsBarrier : StreamElement → Type 0 where
  is_barrier : {b : Barrier} → IsBarrier (barrier_element b)

-- All of the invariant but that an alignment in progress still waits for someone, over the fields
-- that it reads.
pub record Books (inputs : ℕ) (eos : ℕ → Bool) (remaining : ℕ) (closed aligning : Bool)
    (barrier : StreamElement) (aligned : ℕ → Bool) (buffered : ℕ → List StreamElement)
    : Type 0 where
  pub idle : aligning ≡ false → (i : ℕ) → aligned i ≡ false
  pub passing : (i : ℕ) → aligned i ≡ false → buffered i ≡ []
  pub in_range : (i : ℕ) → aligned i ≡ true → i < inputs
  pub counted : remaining ≡ count_live eos inputs
  pub closing : closed ≡ true → remaining ≡ 0
  pub carrying : aligning ≡ true → IsBarrier barrier

abbrev pub Bookkeeping : Gate → Type 0
Bookkeeping g =
    Books g.inputs g.end_of_stream g.remaining g.closed g.aligning g.barrier g.aligned_for
      g.buffered

pub record GateInv (g : Gate) : Type 0 where
  pub books : Bookkeeping g
  pub open books use *
  pub awaited : g.aligning ≡ true → any_awaited g.end_of_stream g.aligned_for g.inputs ≡ true

count_live-none : (n : ℕ) → count_live (λ _. false) n ≡ n
unfolding count_live
count_live-none zero = refl
count_live-none (suc n) = omega (arith, count_live-none n)

pub new_gate-GateInv : (n : ℕ) (fs : Faults) → GateInv (new_gate n fs)
unfolding new_gate
new_gate-GateInv n fs = record {
  books = record {
    idle = λ _ _. refl;
    passing = λ _ _. refl;
    in_range = λ i e. absurd (ground arith);
    counted = sym (count_live-none n);
    closing = λ e. absurd (ground arith);
    carrying = λ e. absurd (ground arith);
  };
  awaited = λ e. ground arith;
}

complete_alignment-GateInv : (g : Gate) → Bookkeeping g → GateInv (complete_alignment g)
unfolding drain_buffers
complete_alignment-GateInv g v =
    complete_alignment_cases GateInv g (λ waits. record { books = v; awaited = waits })
      (λ _ _. record {
        books = record {
          idle = λ _ _. refl;
          passing = λ _ _. refl;
          in_range = λ i e. absurd (ground arith);
          counted = v.counted;
          closing = v.closing;
          carrying = λ e. absurd (ground arith);
        };
        awaited = λ e. absurd (ground arith);
      })

pub mark_aligned-Bookkeeping :
    (g : Gate) (i : ℕ) (b : Barrier)
    → i < g.inputs
    → Bookkeeping g
    → Bookkeeping (mark_aligned g i b)
unfolding mark_aligned
mark_aligned-Bookkeeping g i b lt v = record {
  idle = λ e. absurd (ground arith);
  passing = λ j e. ground (arith, v.passing j);
  in_range = λ j e. ground (arith, v.in_range j);
  counted = v.counted;
  closing = v.closing;
  carrying =
      λ e. if_cases IsBarrier g.aligning g.barrier (barrier_element b) v.carrying (λ _. is_barrier);
}

on_barrier-GateInv :
    (g : Gate) (i : ℕ) (b : Barrier) → i < g.inputs → Bookkeeping g → GateInv (on_barrier g i b)
on_barrier-GateInv g i b lt v =
    let w = mark_aligned-Bookkeeping g i b lt v in
    on_barrier_cases GateInv g i b
      (λ e waits. unfold mark_aligned in record { books = w; awaited = λ _. waits })
      (complete_alignment-GateInv (mark_aligned g i b) w)

count_live-exhausted :
    (eos : ℕ → Bool) (i n : ℕ)
    → eos i ≡ false
    → count_live (update eos i true) n + (if ltb i n then 1 else 0) ≡ count_live eos n
unfolding count_live
count_live-exhausted eos i zero h = ground arith
count_live-exhausted eos i (suc n) h = ground (arith, count_live-exhausted eos i n h)

pub count_live-zero : (eos : ℕ → Bool) (n i : ℕ) → count_live eos n ≡ 0 → i < n → eos i ≡ true
unfolding count_live
count_live-zero eos zero i h lt = absurd (omega arith)
count_live-zero eos (suc n) i h lt = ground (arith, count_live-zero eos n i)

pub count_live-none_left :
    (eos : ℕ → Bool) (n : ℕ) → ((i : ℕ) → i < n → eos i ≡ true) → count_live eos n ≡ 0
unfolding count_live
count_live-none_left eos zero h = refl
count_live-none_left eos (suc n) h =
    ground (arith, h n (omega arith), count_live-none_left eos n (λ i lt. h i (omega arith)))

pub mark_exhausted-Bookkeeping :
    (g : Gate) (i : ℕ)
    → i < g.inputs
    → g.end_of_stream i ≡ false
    → Bookkeeping g
    → Bookkeeping (mark_exhausted g i)
unfolding mark_exhausted
mark_exhausted-Bookkeeping g i lt first v = record {
  idle = v.idle;
  passing = v.passing;
  in_range = v.in_range;
  counted = ground (arith, count_live-exhausted g.end_of_stream i g.inputs first, v.counted);
  closing = λ e. ground (arith, v.closing e);
  carrying = v.carrying;
}

pub close_output-Bookkeeping : (g : Gate) → Bookkeeping g → Bookkeeping (close_output g)
close_output-Bookkeeping g v = close_output_cases Bookkeeping g v (λ last _. record {
  idle = v.idle;
  passing = v.passing;
  in_range = v.in_range;
  counted = v.counted;
  closing = λ _. last;
  carrying = v.carrying;
})

on_end_of_stream-GateInv :
    (g : Gate) (i : ℕ) → i < g.inputs → GateInv g → GateInv (on_end_of_stream g i)
on_end_of_stream-GateInv g i lt v =
    on_end_of_stream_cases GateInv g i (λ _. v)
      (λ first.
        let w = mark_exhausted-Bookkeeping g i lt first v.books in
        complete_alignment-GateInv _
          (close_output-Bookkeeping _ (advance_cases Bookkeeping _ (λ _. w) (λ _. w))))

-- Also when the element comes from an input that is exhausted, or is a second end of stream.
pub deliver-GateInv :
    (g : Gate) (i : ℕ) (e : StreamElement) → i < g.inputs → GateInv g → GateInv (deliver g i e)
unfolding deliver
deliver-GateInv g i (record_element r) lt v = record { books = v.books; awaited = v.awaited }
deliver-GateInv g i (barrier_element b) lt v = on_barrier-GateInv g i b lt v.books
deliver-GateInv g i end_of_stream_element lt v = on_end_of_stream-GateInv g i lt v
deliver-GateInv g i (watermark_element w) lt v =
    advance_cases GateInv _ (λ _. record { books = v.books; awaited = v.awaited })
      (λ _. record { books = v.books; awaited = v.awaited })

buffer-GateInv :
    (g : Gate) (i : ℕ) (e : StreamElement)
    → holds_back g i ≡ true
    → GateInv g
    → GateInv (buffer g i e)
buffer-GateInv g i e hold v = record {
  books = record {
    idle = v.idle;
    passing = λ j a. ground (arith, v.passing j a);
    in_range = v.in_range;
    counted = v.counted;
    closing = v.closing;
    carrying = v.carrying;
  };
  awaited = v.awaited;
}

-- Handling an element of one of its inputs keeps a gate well-formed: only inputs are aligned, and none
-- while no alignment is in progress; an input that is not aligned has nothing held back; `remaining`
-- counts the inputs that have not ended, and is zero in a closed gate; an alignment in progress has a
-- barrier to forward and waits for a live input.
pub handle-GateInv : (g : Gate) (t : Tagged) → t.input < g.inputs → GateInv g → GateInv (handle g t)
handle-GateInv g t lt v =
    handle_cases GateInv g t (λ hold. buffer-GateInv g t.input t.elem hold v)
      (λ _. deliver-GateInv g t.input t.elem lt v)
