-- ===== src/Runtime/Gate/Cases.antt =====
-- pkg/runtime/gate.go: the branches of each operation, as one rule for each: to prove `P` of its
-- result, prove `P` of what each branch returns, under what that branch was taken for.
use tidemark.Prelude.{
  ℕ, ◌≡◌, true, false, ◌&&◌, ◌||◌, not, Option, none, some, ◌==◌, Bool-cases, inl, inr, arith,
  leb_ℤ, ◌≤ℤ◌, ◌<ℤ◌,
}
use tidemark.Core.{Barrier}
use tidemark.Runtime.Faults.{FaultError}
use tidemark.Runtime.Gate.{
  Gate, Tagged, minimum, emit_watermark, advance, any_awaited, awaiting_barrier, forward_barrier,
  drain_buffers, complete_alignment, mark_aligned, set_err, on_barrier, mark_exhausted, emit_end,
  close_output, on_end_of_stream, deliver, holds_back, buffer, handle,
}

module _ {ℓ} (P : Gate → Type ℓ) where
  pub advance_cases :
      (g : Gate)
      → (minimum g ≤ℤ g.out → P g)
      → (g.out <ℤ minimum g → P (emit_watermark g (minimum g)))
      → P (advance g)
  unfolding advance
  advance_cases g stay move = elim (Bool-cases (leb_ℤ (minimum g) g.out)) [
    | inl e ↦ rw e (stay (ground arith))
    | inr e ↦ rw e (move (ground arith))
  ]

  pub complete_alignment_cases :
      (g : Gate)
      → ((g.aligning ≡ true → any_awaited g.end_of_stream g.aligned_for g.inputs ≡ true) → P g)
      → (g.aligning ≡ true
          → any_awaited g.end_of_stream g.aligned_for g.inputs ≡ false
          → P (drain_buffers (forward_barrier g)))
      → P (complete_alignment g)
  unfolding complete_alignment awaiting_barrier
  complete_alignment_cases g wait done =
      elim (Bool-cases
        (not g.aligning || (g.aligning && any_awaited g.end_of_stream g.aligned_for g.inputs))) [
          | inl e ↦ rw e (wait (λ on. ground arith))
          | inr e ↦ rw e (done (ground arith) (ground arith))
        ]

  set_err_cases :
      (g : Gate) (e : Option FaultError)
      → P g
      → ((x : FaultError) → P (record g { err = some x }))
      → P (set_err g e)
  unfolding set_err
  set_err_cases g none p q = p
  set_err_cases g (some e) p q = q e

  pub on_barrier_cases :
      (g : Gate) (i : ℕ) (b : Barrier)
      → ((e : Option FaultError)
          → any_awaited g.end_of_stream (mark_aligned g i b).aligned_for g.inputs ≡ true
          → P (record (mark_aligned g i b) { err = e }))
      → P (complete_alignment (mark_aligned g i b))
      → P (on_barrier g i b)
  unfolding on_barrier mark_aligned awaiting_barrier
  on_barrier_cases g i b wait done =
      elim (Bool-cases (any_awaited g.end_of_stream (mark_aligned g i b).aligned_for g.inputs)) [
        | inl e ↦ rw e (set_err_cases _ _ (wait g.err e) (λ x. wait (some x) e))
        | inr e ↦ rw e done
      ]

  pub close_output_cases :
      (g : Gate) → P g → (g.remaining ≡ 0 → g.closed ≡ false → P (emit_end g)) → P (close_output g)
  unfolding close_output
  close_output_cases g stay end = elim (Bool-cases ((g.remaining == 0) && not g.closed)) [
    | inl e ↦ rw e (end (ground arith) (ground arith))
    | inr e ↦ rw e stay
  ]

  pub on_end_of_stream_cases :
      (g : Gate) (i : ℕ)
      → (g.end_of_stream i ≡ true → P g)
      → (g.end_of_stream i ≡ false
          → P (complete_alignment (close_output (advance (mark_exhausted g i)))))
      → P (on_end_of_stream g i)
  unfolding on_end_of_stream
  on_end_of_stream_cases g i again first = elim (Bool-cases (g.end_of_stream i)) [
    | inl e ↦ rw e (again e)
    | inr e ↦ rw e (first e)
  ]

  pub handle_cases :
      (g : Gate) (t : Tagged)
      → (holds_back g t.input ≡ true → P (buffer g t.input t.elem))
      → (holds_back g t.input ≡ false → P (deliver g t.input t.elem))
      → P (handle g t)
  unfolding handle
  handle_cases g t hold pass = elim (Bool-cases (holds_back g t.input)) [
    | inl e ↦ rw e (hold e)
    | inr e ↦ rw e (pass e)
  ]
