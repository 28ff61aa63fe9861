-- ===== src/Runtime/Gate/Passing.antt =====
-- pkg/runtime/gate.go: event time through `deliver`. If what each input has yet to deliver is on
-- time, then so are the output and what is left, whatever the element does.
use tidemark.Prelude.{
  ℕ, ◌<◌, ◌≡◌, sym, ◌∙◌, true, false, List, [], ◌∷◌, ◌++◌, ℤ, ◌≤ℤ◌, ◌==◌, ==_iff, update, subst,
  Bool-cases, inl, inr, arith, min_int64,
}
use tidemark.Core.{
  Barrier, StreamElement, record_element, watermark_element, barrier_element, end_of_stream_element,
}
use tidemark.Runtime.Gate.{
  Gate, advance, mark_aligned, mark_exhausted, close_output, set_watermark, deliver, holds_back,
}
use tidemark.Runtime.Gate.Cases.{advance_cases, on_barrier_cases, on_end_of_stream_cases}
use tidemark.Runtime.Gate.Structure.{
  Bookkeeping, GateInv, count_live-zero, mark_aligned-Bookkeeping, mark_exhausted-Bookkeeping,
  close_output-Bookkeeping,
}
use tidemark.Runtime.Gate.Epochs.{not_aligned}
use tidemark.Runtime.Gate.Flow.{OnTime, Rising, Rising-record}
use tidemark.Runtime.Gate.Timing.{
  Timing, Timed, open-Flow, advance-Timed, complete_alignment-Timed, close_output-Timed,
}

-- To prove something of input `i`, prove it of `j`, and of `i` where it is another.
split_at : (Q : ℕ → Type 0) (j i : ℕ) → Q j → ((j == i) ≡ false → Q i) → Q i
split_at Q j i here there = elim (Bool-cases (j == i)) [
  | inl e ↦ subst Q ((==_iff j i).0 e) here
  | inr e ↦ there e
]

-- One element of input `j` on its way through an open gate: `rest` is what is left before it,
-- `rest'` what is left behind it.
module _ (rest rest' : ℕ → List StreamElement) (emitted : List StreamElement) (g : Gate) (j : ℕ)
    (e : StreamElement) (lt : j < g.inputs) (v : GateInv g) (pass : holds_back g j ≡ false)
    (fetched : rest j ≡ e ∷ rest' j) (others : (i : ℕ) → (j == i) ≡ false → rest i ≡ rest' i)
    (h : Timed rest emitted g) where
  is_live : g.end_of_stream j ≡ false
  is_live = elim (Bool-cases (g.end_of_stream j)) [
    | inl dead ↦ absurd (ground (arith, h.0.finished j lt dead, fetched))
    | inr l ↦ l
  ]

  is_open : g.closed ≡ false
  is_open = elim (Bool-cases g.closed) [
    | inl c ↦ absurd (
        ground (
          arith,
          count_live-zero g.end_of_stream g.inputs j (ground (arith, v.counted, v.closing c)) lt,
          is_live,
        ))
    | inr o ↦ o
  ]

  head-OnTime : OnTime (g.watermarks j) (e ∷ rest' j)
  head-OnTime = subst (OnTime (g.watermarks j)) fetched (h.0.on_time j lt is_live)

  still_finished : (i : ℕ) → i < g.inputs → g.end_of_stream i ≡ true → rest' i ≡ []
  still_finished i il dead =
      split_at (λ k. g.end_of_stream k ≡ true → rest' k ≡ []) j i
        (λ d. absurd (ground (arith, is_live))) (λ ne _. sym (others i ne) ∙ h.0.finished i il dead)
        dead

  -- An element that leaves the watermarks and the exhausted inputs alone.
  passed-Timing :
      OnTime (g.watermarks j) (rest' j)
      → Timing g.inputs g.end_of_stream g.watermarks g.out g.aligning g.aligned_for rest'
  passed-Timing o = record {
    on_time = λ i il live.
        split_at (λ k. OnTime (g.watermarks k) (rest' k)) j i o
          (λ ne. subst (OnTime (g.watermarks i)) (others i ne) (h.0.on_time i il live));
    behind = h.0.behind;
    finished = still_finished;
    aligned_live = h.0.aligned_live;
    begun = h.0.begun;
  }

  open-Rising : Rising min_int64 (emitted ++ g.pending) g.out
  open-Rising = h.1.going is_open

  -- A watermark from input `j`, before `advance`.
  watermark-Timing :
      (w : ℤ)
      → g.watermarks j ≤ℤ w
      → OnTime w (rest' j)
      → Timing g.inputs g.end_of_stream
          (update g.watermarks j w)
          g.out
          g.aligning
          g.aligned_for
          rest'
  watermark-Timing w up o = record {
    on_time = λ i il live. elim (Bool-cases (j == i)) [
      | inl e ↦ rw e (subst (λ k. OnTime w (rest' k)) ((==_iff j i).0 e) o)
      | inr ne ↦ rw ne (subst (OnTime (g.watermarks i)) (others i ne) (h.0.on_time i il live))
    ];
    behind = λ i il live. ground (arith, h.0.behind i il live, h.0.behind j lt is_live);
    finished = still_finished;
    aligned_live = h.0.aligned_live;
    begun = h.0.begun;
  }

  -- The end of input `j`, before `advance`.
  end-Timing :
      rest' j ≡ []
      → Timing g.inputs
          (update g.end_of_stream j true)
          g.watermarks
          g.out
          g.aligning
          g.aligned_for
          rest'
  end-Timing none_left = record {
    on_time = λ i il live.
        let ne : (j == i) ≡ false = ground arith in
        subst (OnTime (g.watermarks i)) (others i ne) (h.0.on_time i il (ground arith));
    behind = λ i il live. h.0.behind i il (ground arith);
    finished = λ i il dead.
        split_at (λ k. rest' k ≡ []) j i none_left (λ ne. still_finished i il (ground arith));
    aligned_live = λ i a. ground (arith, h.0.aligned_live i a, not_aligned g j v pass);
    begun = h.0.begun;
  }

  -- A barrier from input `j`, before the alignment may complete.
  barrier-Timing :
      OnTime (g.watermarks j) (rest' j)
      → Timing g.inputs g.end_of_stream g.watermarks g.out true (update g.aligned_for j true) rest'
  barrier-Timing o =
      let p = passed-Timing o in
      record {
        on_time = p.on_time;
        behind = p.behind;
        finished = p.finished;
        aligned_live = λ i a.
            split_at (λ k. g.end_of_stream k ≡ false) j i is_live
              (λ ne. h.0.aligned_live i (ground arith));
        begun = λ _. (j, ground arith);
      }

module _ (rest rest' : ℕ → List StreamElement) (emitted : List StreamElement) (g : Gate) (j : ℕ)
    (lt : j < g.inputs) (v : GateInv g) (pass : holds_back g j ≡ false)
    (others : (i : ℕ) → (j == i) ≡ false → rest i ≡ rest' i) (h : Timed rest emitted g) where
  barrier-Timed :
      (b : Barrier)
      → rest j ≡ barrier_element b ∷ rest' j
      → Timed rest' emitted (deliver g j (barrier_element b))
  unfolding deliver
  barrier-Timed b f =
      let e = barrier_element b in
      let o = head-OnTime rest rest' emitted g j e lt v pass f others h in
      let m : Timed rest' emitted (mark_aligned g j b) =
        unfold mark_aligned in
        (barrier-Timing rest rest' emitted g j e lt v pass f others h o, h.1) in
      on_barrier_cases (Timed rest' emitted) g j b (λ _ _. m)
        (complete_alignment-Timed rest' emitted (mark_aligned g j b)
          (mark_aligned-Bookkeeping g j b lt v.books)
          (λ _. unfold mark_aligned in is_open rest rest' emitted g j e lt v pass f others h) m)

  end-Timed :
      rest j ≡ end_of_stream_element ∷ rest' j
      → Timed rest' emitted (deliver g j end_of_stream_element)
  unfolding deliver
  end-Timed f =
      let e = end_of_stream_element in
      let live = is_live rest rest' emitted g j e lt v pass f others h in
      let o = is_open rest rest' emitted g j e lt v pass f others h in
      let none_left = head-OnTime rest rest' emitted g j e lt v pass f others h in
      let m : Timed rest' emitted (mark_exhausted g j) =
        unfold mark_exhausted in
        (end-Timing rest rest' emitted g j e lt v pass f others h none_left, h.1) in
      let w = mark_exhausted-Bookkeeping g j lt live v.books in
      let a = advance (mark_exhausted g j) in
      let wa = advance_cases Bookkeeping (mark_exhausted g j) (λ _. w) (λ _. w) in
      let ta = advance-Timed rest' emitted (mark_exhausted g j) m (unfold mark_exhausted in o) in
      let tc = close_output-Timed rest' emitted a wa ta.0 ta.1 in
      on_end_of_stream_cases (Timed rest' emitted) g j (λ dead. absurd (ground (arith, live)))
        (λ _.
          complete_alignment-Timed rest' emitted (close_output a) (close_output-Bookkeeping a wa)
            tc.1 tc.0)

  -- If what is left of the inputs is on time, a delivered element leaves the output on time, and
  -- what is left of the inputs behind it.
  pub deliver-Timed :
      (e : StreamElement) → rest j ≡ e ∷ rest' j → Timed rest' emitted (deliver g j e)
  unfolding deliver
  deliver-Timed (barrier_element b) f = barrier-Timed b f
  deliver-Timed end_of_stream_element f = end-Timed f
  deliver-Timed (record_element r) f =
      let e = record_element r in
      let o = head-OnTime rest rest' emitted g j e lt v pass f others h in
      let live = is_live rest rest' emitted g j e lt v pass f others h in
      (
        passed-Timing rest rest' emitted g j e lt v pass f others h o.1,
        open-Flow emitted g.pending e g.out (is_open rest rest' emitted g j e lt v pass f others h)
            (Rising-record min_int64 (emitted ++ g.pending) g.out r
              (open-Rising rest rest' emitted g j e lt v pass f others h)
              (omega (arith, o.0, h.0.behind j lt live))),
      )
  deliver-Timed (watermark_element w) f =
      let e = watermark_element w in
      let o = head-OnTime rest rest' emitted g j e lt v pass f others h in
      (advance-Timed rest' emitted (set_watermark g j w)
        (watermark-Timing rest rest' emitted g j e lt v pass f others h w o.0 o.1, h.1)
        (is_open rest rest' emitted g j e lt v pass f others h)).0
