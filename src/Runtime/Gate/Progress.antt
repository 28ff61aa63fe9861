-- ===== src/Runtime/Gate/Progress.antt =====
-- pkg/runtime/gate.go: the loop of `Recv` ends. Each round returns, or delivers an element, of which
-- there is then one less, or moves one from the queues into a buffer.
use native.Mathlib.Decide.{dec_lt}
use tidemark.Prelude.{
  ℕ, zero, suc, ◌+◌, ◌*◌, ◌<◌, ◌≤◌, ◌≡◌, ◌⊎◌, refl, ap, ◌∙◌, some, List, [], ◌∷◌, ◌++◌, length,
  length-append, update, inl, inr, arith, subst,
}
use tidemark.Core.{
  StreamElement, record_element, watermark_element, barrier_element, end_of_stream_element,
}
use tidemark.Runtime.Gate.{
  Gate, Tagged, Received, advance, tag, held, drain_buffers, complete_alignment, mark_aligned,
  mark_exhausted, set_watermark, deliver, buffer, handle, next_round, recv,
}
use tidemark.Runtime.Gate.Cases.{
  advance_cases, complete_alignment_cases, on_barrier_cases, close_output_cases,
  on_end_of_stream_cases, handle_cases,
}
use tidemark.Runtime.Gate.Streams.{InRange}
use tidemark.Runtime.Gate.History.{round_cases, replayed}
use tidemark.Runtime.Gate.Fifo.{handle-Kept}

unfoldable pub total_length : (ℕ → List StreamElement) → ℕ → ℕ
total_length b zero = 0
total_length b (suc i) = total_length b i + length (b i)

-- What the gate holds and has not delivered.
abbrev pub load : Gate → ℕ
load g = length g.replay + total_length g.buffered g.inputs

length-tag : (i : ℕ) (es : List StreamElement) → length (tag i es) ≡ length es
length-tag i [] = refl
length-tag i (e ∷ es) = ap suc (length-tag i es)

length-held : (b : ℕ → List StreamElement) (n : ℕ) → length (held b n) ≡ total_length b n
unfolding held total_length
length-held b zero = refl
length-held b (suc n) =
    length-append (held b n) (tag n (b n)) ∙ omega (arith, length-held b n, length-tag n (b n))

total_length-nil : (n : ℕ) → total_length (λ _. []) n ≡ 0
unfolding total_length
total_length-nil zero = refl
total_length-nil (suc n) = omega (arith, total_length-nil n)

total_length-update_of_le :
    (b : ℕ → List StreamElement) (j n : ℕ) (es : List StreamElement)
    → n ≤ j
    → total_length (update b j es) n ≡ total_length b n
unfolding total_length
total_length-update_of_le b j zero es h = refl
total_length-update_of_le b j (suc n) es h = ground (arith, total_length-update_of_le b j n es)

total_length-update :
    (b : ℕ → List StreamElement) (j n : ℕ) (es : List StreamElement)
    → j < n
    → total_length (update b j es) n + length (b j) ≡ total_length b n + length es
unfolding total_length
total_length-update b j zero es lt = absurd (omega arith)
total_length-update b j (suc n) es lt = elim (dec_lt j n) [
  | yes below ↦ ground (arith, total_length-update b j n es below)
  | no last ↦ ground (arith, total_length-update_of_le b j n es)
]

abbrev Loads : ℕ → Gate → Type 0
Loads k g = load g ≡ k

complete_alignment-Loads : (k : ℕ) (g : Gate) → Loads k g → Loads k (complete_alignment g)
unfolding drain_buffers
complete_alignment-Loads k g h =
    complete_alignment_cases (Loads k) g (λ _. h)
      (λ _ _. omega (
        arith,
        h,
        length-append (held g.buffered g.inputs) g.replay,
        length-held g.buffered g.inputs,
        total_length-nil g.inputs,
      ))

advance-Loads : (k : ℕ) (g : Gate) → Loads k g → Loads k (advance g)
advance-Loads k g h = advance_cases (Loads k) g (λ _. h) (λ _. h)

deliver-Loads : (g : Gate) (j : ℕ) (e : StreamElement) → Loads (load g) (deliver g j e)
unfolding deliver
deliver-Loads g j (record_element r) = refl
deliver-Loads g j (watermark_element w) = advance-Loads _ (set_watermark g j w) refl
deliver-Loads g j (barrier_element b) =
    on_barrier_cases (Loads (load g)) g j b (λ _ _. unfold mark_aligned in refl)
      (complete_alignment-Loads _ (mark_aligned g j b) (unfold mark_aligned in refl))
deliver-Loads g j end_of_stream_element =
    on_end_of_stream_cases (Loads (load g)) g j (λ _. refl)
      (λ _.
        let a = advance-Loads (load g) (mark_exhausted g j) (unfold mark_exhausted in refl) in
        complete_alignment-Loads _ _
          (close_output_cases (Loads (load g)) (advance (mark_exhausted g j)) a (λ _ _. a)))

buffer-load :
    (g : Gate) (i : ℕ) (e : StreamElement) → i < g.inputs → load (buffer g i e) ≡ suc (load g)
buffer-load g i e lt = omega (
  arith,
  total_length-update g.buffered i g.inputs (g.buffered i ++ e ∷ []) lt,
  length-append (g.buffered i) (e ∷ []),
)

-- What is still to be delivered, and the part of it that is not in a buffer.
abbrev pub work : Gate → List Tagged → ℕ
work g ms = load g + length ms

abbrev pub queue : Gate → List Tagged → ℕ
queue g ms = length g.replay + length ms

-- An element that a gate handles leaves less work, or the same and a shorter queue.
handle-work :
    (g : Gate) (t : Tagged) (ms : List Tagged)
    → t.input < g.inputs
    → ((work (handle g t) ms ≡ suc (work g ms)) × (queue (handle g t) ms ≡ queue g ms))
      ⊎ (work (handle g t) ms ≡ work g ms)
handle-work g t ms lt =
    handle_cases
      (λ h. ((work h ms ≡ suc (work g ms)) × (queue h ms ≡ queue g ms)) ⊎ (work h ms ≡ work g ms)) g
      t (λ _. inl (omega (arith, buffer-load g t.input t.elem lt), refl))
      (λ _. inr (omega (arith, deliver-Loads g t.input t.elem)))

queue-le-work : (g : Gate) (ms : List Tagged) → queue g ms ≤ work g ms
queue-le-work g ms = omega arith

-- The rounds that a call of `Recv` may take: falls with every round.
abbrev pub budget : Gate → List Tagged → ℕ
budget g ms = work g ms * work g ms + queue g ms

-- The budget before the next element is taken out of the replay queue or the channel.
unfoldable pub budget_next : (g : Gate) (ms : List Tagged) → ℕ
budget_next g ms = suc (work g ms) * suc (work g ms) + suc (queue g ms)

pub budget-falls :
    (g : Gate) (t : Tagged) (ms : List Tagged)
    → t.input < g.inputs
    → budget (handle g t) ms < budget_next g ms
unfolding budget_next
budget-falls g t ms lt = elim (handle-work g t ms lt) [
  | inl (w, q) ↦ rw (w, q) (omega arith)
  | inr w ↦ rw w (omega (arith, queue-le-work (handle g t) ms, w))
]

pub budget-replay :
    (g : Gate) (t : Tagged) (ts ms : List Tagged)
    → g.replay ≡ t ∷ ts
    → budget g ms ≡ budget_next (replayed g ts) ms
unfolding budget_next
budget-replay g t ts ms p = rw p (omega arith)

pub budget-merged :
    (g : Gate) (t : Tagged) (ts ms : List Tagged) → ms ≡ t ∷ ts → budget g ms ≡ budget_next g ts
unfolding budget_next
budget-merged g t ts ms p = rw p (omega arith)

-- `Recv` returns, from every gate whose replay queue and arrivals name only its own inputs: with fuel
-- above the budget it has a result.
pub recv_total :
    (fuel : ℕ) (g : Gate) (ms : List Tagged)
    → InRange g.inputs g.replay
    → InRange g.inputs ms
    → budget g ms < fuel
    → (x : Received) × (recv fuel g ms ≡ some x)
unfolding recv
recv_total zero g ms rs hs b = absurd (omega arith)
recv_total (suc fuel) g ms rs hs b =
    round_cases (λ k. (x : Received) × (next_round (recv fuel) g ms k ≡ some x)) g ms (_, refl)
      (λ e es _. (_, refl))
      (λ t ts _ p.
        let h = subst (InRange g.inputs) p rs in
        let k = handle-Kept g.inputs (replayed g ts) t (refl, h.1) in
        recv_total fuel (handle (replayed g ts) t) ms (rw k.0 k.1) (rw k.0 hs)
          (omega (arith, budget-replay g t ts ms p, budget-falls (replayed g ts) t ms h.0)))
      (λ t ts _ _ p.
        let h = subst (InRange g.inputs) p hs in
        let k = handle-Kept g.inputs g t (refl, rs) in
        recv_total fuel (handle g t) ts (rw k.0 k.1) (rw k.0 h.1)
          (omega (arith, budget-merged g t ts ms p, budget-falls g t ts h.0)))
