-- ===== src/Runtime/Gate/Streams.antt =====
-- pkg/runtime/gate.go: the streams of the single inputs inside a gate. What input `i` has sent and
-- the gate has not delivered is what is buffered for `i`, then what `replay` holds of `i`.
use tidemark.Prelude.{
  ℕ, zero, suc, ◌<◌, ◌≤◌, ◌≡◌, refl, ap, ◌∙◌, false, List, [], ◌∷◌, ◌++◌, append-nil, ltb, ◌==◌,
  if◌then◌else◌, All, All-append, Bool-cases, inl, inr, arith,
}
use tidemark.Core.{
  StreamElement, record_element, watermark_element, barrier_element, end_of_stream_element,
}
use tidemark.Runtime.Gate.{
  Gate, Tagged, advance, tag, held, drain_buffers, complete_alignment, mark_aligned, mark_exhausted,
  close_output, set_watermark, deliver,
}
use tidemark.Runtime.Gate.Cases.{
  advance_cases, complete_alignment_cases, on_barrier_cases, close_output_cases,
  on_end_of_stream_cases,
}
use tidemark.Runtime.Gate.Structure.{
  Bookkeeping, mark_aligned-Bookkeeping, mark_exhausted-Bookkeeping, close_output-Bookkeeping,
}

-- The elements of input `i` in a tagged sequence, in order.
unfoldable pub by : ℕ → List Tagged → List StreamElement
by i [] = []
by i (t ∷ ts) = let rest = by i ts in if t.input == i then t.elem ∷ rest else rest

pub by-append : (i : ℕ) (ts us : List Tagged) → by i (ts ++ us) ≡ by i ts ++ by i us
unfolding by
by-append i [] us = refl
by-append i (t ∷ ts) us = ground (arith, by-append i ts us)

by-tag : (i j : ℕ) (es : List StreamElement) → by i (tag j es) ≡ (if j == i then es else [])
unfolding by
by-tag i j [] = ground arith
by-tag i j (e ∷ es) = ground (arith, by-tag i j es)

by-held : (i n : ℕ) (b : ℕ → List StreamElement) → by i (held b n) ≡ (if ltb i n then b i else [])
unfolding held by
by-held i zero b = ground arith
by-held i (suc n) b =
    by-append i (held b n) (tag n (b n))
    ∙ ground (arith, by-held i n b, by-tag i n (b n), append-nil (b i))

abbrev pub waiting : Gate → ℕ → List StreamElement
waiting g i = g.buffered i ++ by i g.replay

-- Nothing is buffered for what is no input.
buffered_outside : (g : Gate) → Bookkeeping g → (i : ℕ) → ltb i g.inputs ≡ false → g.buffered i ≡ []
buffered_outside g v i h = elim (Bool-cases (g.aligned_for i)) [
  | inl a ↦ absurd (ground (arith, v.in_range i a))
  | inr a ↦ v.passing i a
]

complete_alignment-waiting :
    (g : Gate) (i : ℕ) → Bookkeeping g → waiting (complete_alignment g) i ≡ waiting g i
unfolding drain_buffers
complete_alignment-waiting g i v =
    complete_alignment_cases (λ h. waiting h i ≡ waiting g i) g (λ _. refl)
      (λ _ _.
        by-append i (held g.buffered g.inputs) g.replay
        ∙ ap (λ es. es ++ by i g.replay) (by-held i g.inputs g.buffered ∙ within))
  where
    within : (if ltb i g.inputs then g.buffered i else []) ≡ g.buffered i
    within = elim (Bool-cases (ltb i g.inputs)) [
      | inl e ↦ rw e
      | inr e ↦ rw (e, buffered_outside g v i e)
    ]

advance-waiting : (g : Gate) (i : ℕ) → waiting (advance g) i ≡ waiting g i
advance-waiting g i = advance_cases (λ h. waiting h i ≡ waiting g i) g (λ _. refl) (λ _. refl)

-- Delivering an element changes nothing of what any input has waiting.
pub deliver-waiting :
    (g : Gate) (j : ℕ) (e : StreamElement) (i : ℕ)
    → j < g.inputs
    → Bookkeeping g
    → waiting (deliver g j e) i ≡ waiting g i
unfolding deliver
deliver-waiting g j (record_element r) i lt v = refl
deliver-waiting g j (watermark_element w) i lt v = advance-waiting (set_watermark g j w) i
deliver-waiting g j (barrier_element b) i lt v =
    on_barrier_cases (λ h. waiting h i ≡ waiting g i) g j b (λ _ _. unfold mark_aligned in refl)
      (complete_alignment-waiting (mark_aligned g j b) i (mark_aligned-Bookkeeping g j b lt v)
        ∙ unfold mark_aligned in refl)
deliver-waiting g j end_of_stream_element i lt v =
    on_end_of_stream_cases (λ h. waiting h i ≡ waiting g i) g j (λ _. refl)
      (λ first.
        let w = mark_exhausted-Bookkeeping g j lt first v in
        let a = advance (mark_exhausted g j) in
        let wa = advance_cases Bookkeeping (mark_exhausted g j) (λ _. w) (λ _. w) in
        complete_alignment-waiting (close_output a) i (close_output-Bookkeeping a wa)
        ∙ close_output_cases (λ h. waiting h i ≡ waiting a i) a refl (λ _ _. refl)
        ∙ advance-waiting (mark_exhausted g j) i
        ∙ unfold mark_exhausted in refl)

abbrev pub InRange : ℕ → List Tagged → Type 0
InRange n = All (λ t. t.input < n)

tag-InRange : (n i : ℕ) (es : List StreamElement) → i < n → InRange n (tag i es)
tag-InRange n i [] h = tt
tag-InRange n i (e ∷ es) h = (h, tag-InRange n i es h)

held-InRange : (n k : ℕ) (b : ℕ → List StreamElement) → k ≤ n → InRange n (held b k)
unfolding held
held-InRange n zero b h = tt
held-InRange n (suc k) b h =
    All-append _ (held b k) (tag k (b k)) (held-InRange n k b (omega arith))
      (tag-InRange n k (b k) (omega arith))

-- What every operation leaves of `inputs` and `replay`.
abbrev Kept : ℕ → Gate → Type 0
Kept n g = (g.inputs ≡ n) × InRange n g.replay

complete_alignment-Kept : (n : ℕ) (g : Gate) → Kept n g → Kept n (complete_alignment g)
unfolding drain_buffers
complete_alignment-Kept n g k =
    complete_alignment_cases (Kept n) g (λ _. k)
      (λ _ _. (
        k.0,
        All-append _ (held g.buffered g.inputs) g.replay
            (held-InRange n g.inputs g.buffered (omega arith)) k.1,
      ))

advance-Kept : (n : ℕ) (g : Gate) → Kept n g → Kept n (advance g)
advance-Kept n g k = advance_cases (Kept n) g (λ _. k) (λ _. k)

pub deliver-Kept :
    (n : ℕ) (g : Gate) (j : ℕ) (e : StreamElement)
    → (g.inputs ≡ n) × InRange n g.replay
    → ((deliver g j e).inputs ≡ n) × InRange n (deliver g j e).replay
unfolding deliver
deliver-Kept n g j (record_element r) k = k
deliver-Kept n g j (watermark_element w) k = advance-Kept n (set_watermark g j w) k
deliver-Kept n g j (barrier_element b) k =
    on_barrier_cases (Kept n) g j b (λ _ _. unfold mark_aligned in k)
      (complete_alignment-Kept n (mark_aligned g j b) (unfold mark_aligned in k))
deliver-Kept n g j end_of_stream_element k =
    on_end_of_stream_cases (Kept n) g j (λ _. k)
      (λ _.
        let a = advance-Kept n (mark_exhausted g j) (unfold mark_exhausted in k) in
        complete_alignment-Kept n _
          (close_output_cases (Kept n) (advance (mark_exhausted g j)) a (λ _ _. a)))
