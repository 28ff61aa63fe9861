-- ===== src/Runtime/Gate/Watermarks.antt =====
-- pkg/runtime/gate.go: the watermarks and the end of stream that a gate forwards, whatever arrives.
use tidemark.Prelude.{
  ℕ, zero, suc, ◌+◌, ◌<◌, ◌≡◌, refl, sym, ap, ◌∙◌, Bool, false, List, [], ◌∷◌, ◌++◌, ℤ, ◌≤ℤ◌, ◌<ℤ◌,
  ◌⊎◌, append_assoc, subst, inl, inr, arith, min_int64, max_int64, if◌then◌else◌, ltb_ℤ, Bool-cases,
}
use tidemark.Core.{
  StreamElement, record_element, watermark_element, barrier_element, end_of_stream_element,
}
use tidemark.Runtime.Faults.{Faults}
use tidemark.Runtime.Gate.{
  Gate, Tagged, new_gate, minimum, min_live, advance, drain_buffers, complete_alignment,
  mark_aligned, mark_exhausted, close_output, set_watermark, deliver, handle,
}
use tidemark.Runtime.Gate.Cases.{
  advance_cases, complete_alignment_cases, on_barrier_cases, close_output_cases,
  on_end_of_stream_cases, handle_cases,
}
use tidemark.Runtime.Gate.Structure.{
  Bookkeeping, IsBarrier, is_barrier, mark_aligned-Bookkeeping, mark_exhausted-Bookkeeping,
  close_output-Bookkeeping,
}
use tidemark.Runtime.Gate.Streams.{InRange}
use tidemark.Runtime.Gate.History.{Run, start, tick, play, output, replayed, tick_cases, play-keeps}
use tidemark.Runtime.Gate.Fifo.{RunInv, start-RunInv, tick-RunInv}
use tidemark.Runtime.Gate.Flow.{min_live-le}

-- The watermarks of a stream rise strictly from above `lo` to at most `hi`.
abbrev pub Climbs : ℤ → List StreamElement → ℤ → Type 0
Climbs lo [] hi = lo ≤ℤ hi
Climbs lo (record_element r ∷ es) hi = Climbs lo es hi
Climbs lo (watermark_element w ∷ es) hi = (lo <ℤ w) × Climbs w es hi
Climbs lo (barrier_element b ∷ es) hi = Climbs lo es hi
Climbs lo (end_of_stream_element ∷ es) hi = Climbs lo es hi

Climbs-watermark :
    (lo : ℤ) (es : List StreamElement) (hi m : ℤ)
    → Climbs lo es hi
    → hi <ℤ m
    → Climbs lo (es ++ watermark_element m ∷ []) m
Climbs-watermark lo [] hi m h a = (omega (arith, h), omega arith)
Climbs-watermark lo (record_element s ∷ es) hi m h a = Climbs-watermark lo es hi m h a
Climbs-watermark lo (watermark_element w ∷ es) hi m h a = (h.0, Climbs-watermark w es hi m h.1 a)
Climbs-watermark lo (barrier_element b ∷ es) hi m h a = Climbs-watermark lo es hi m h a
Climbs-watermark lo (end_of_stream_element ∷ es) hi m h a = Climbs-watermark lo es hi m h a

-- An element that is no watermark.
abbrev Plain : StreamElement → Type 0
Plain e = (lo hi : ℤ) → Climbs lo [] hi → Climbs lo (e ∷ []) hi

Climbs-Plain :
    (lo : ℤ) (es : List StreamElement) (hi : ℤ) (e : StreamElement)
    → Plain e
    → Climbs lo es hi
    → Climbs lo (es ++ e ∷ []) hi
Climbs-Plain lo [] hi e p h = p lo hi h
Climbs-Plain lo (record_element s ∷ es) hi e p h = Climbs-Plain lo es hi e p h
Climbs-Plain lo (watermark_element w ∷ es) hi e p h = (h.0, Climbs-Plain w es hi e p h.1)
Climbs-Plain lo (barrier_element b ∷ es) hi e p h = Climbs-Plain lo es hi e p h
Climbs-Plain lo (end_of_stream_element ∷ es) hi e p h = Climbs-Plain lo es hi e p h

IsBarrier-Plain : {e : StreamElement} → IsBarrier e → Plain e
IsBarrier-Plain is_barrier = λ lo hi h. h

-- How many ends of stream.
unfoldable pub ends : List StreamElement → ℕ
ends [] = 0
ends (record_element r ∷ es) = ends es
ends (watermark_element w ∷ es) = ends es
ends (barrier_element b ∷ es) = ends es
ends (end_of_stream_element ∷ es) = suc (ends es)

ends-append : (es fs : List StreamElement) → ends (es ++ fs) ≡ ends es + ends fs
unfolding ends
ends-append [] fs = omega arith
ends-append (record_element r ∷ es) fs = ends-append es fs
ends-append (watermark_element w ∷ es) fs = ends-append es fs
ends-append (barrier_element b ∷ es) fs = ends-append es fs
ends-append (end_of_stream_element ∷ es) fs = omega (arith, ends-append es fs)

ends-IsBarrier : {e : StreamElement} → IsBarrier e → ends (e ∷ []) ≡ 0
unfolding ends
ends-IsBarrier is_barrier = refl

-- The forwarded watermarks climb to `out`, and an end of stream was forwarded iff the gate closed.
record Forwards (emitted : List StreamElement) (closed : Bool) (out : ℤ)
    (pending : List StreamElement) : Type 0 where
  climbing : Climbs min_int64 (emitted ++ pending) out
  ending : ends (emitted ++ pending) ≡ (if closed then 1 else 0)

abbrev Sends : List StreamElement → Gate → Type 0
Sends emitted g = Forwards emitted g.closed g.out g.pending

module _ (emitted : List StreamElement) where
  -- Appending a plain element that is no end of stream.
  Plain-Forwards :
      (closed : Bool) (out : ℤ) (pending : List StreamElement) (e : StreamElement)
      → Plain e
      → ends (e ∷ []) ≡ 0
      → Forwards emitted closed out pending
      → Forwards emitted closed out (pending ++ e ∷ [])
  Plain-Forwards closed out pending e p z f = record {
    climbing =
        subst (λ es. Climbs min_int64 es out) (append_assoc emitted pending (e ∷ []))
          (Climbs-Plain min_int64 (emitted ++ pending) out e p f.climbing);
    ending =
        ap ends (sym (append_assoc emitted pending (e ∷ [])))
        ∙ omega (arith, ends-append (emitted ++ pending) (e ∷ []), z, f.ending);
  }

  advance-Sends : (g : Gate) → Sends emitted g → Sends emitted (advance g)
  unfolding ends
  advance-Sends g f =
      advance_cases (Sends emitted) g (λ _. f)
        (λ up. record {
          climbing =
              subst (λ es. Climbs min_int64 es (minimum g)) (append_assoc emitted g.pending _)
                (Climbs-watermark min_int64 (emitted ++ g.pending) g.out (minimum g) f.climbing up);
          ending =
              ap ends (sym (append_assoc emitted g.pending _))
              ∙ omega (
                arith,
                ends-append (emitted ++ g.pending) (watermark_element (minimum g) ∷ []),
                f.ending,
              );
        })

  complete_alignment-Sends :
      (g : Gate) → Bookkeeping g → Sends emitted g → Sends emitted (complete_alignment g)
  unfolding drain_buffers
  complete_alignment-Sends g v f =
      complete_alignment_cases (Sends emitted) g (λ _. f)
        (λ on _.
          Plain-Forwards g.closed g.out g.pending g.barrier (IsBarrier-Plain (v.carrying on))
            (ends-IsBarrier (v.carrying on)) f)

  close_output-Sends : (g : Gate) → Sends emitted g → Sends emitted (close_output g)
  unfolding ends
  close_output-Sends g f = close_output_cases (Sends emitted) g f (λ _ still_open. record {
    climbing =
        subst (λ es. Climbs min_int64 es g.out) (append_assoc emitted g.pending _)
          (Climbs-Plain min_int64 (emitted ++ g.pending) g.out end_of_stream_element (λ lo hi h. h)
            f.climbing);
    ending =
        ap ends (sym (append_assoc emitted g.pending _))
        ∙ ground (
          arith,
          ends-append (emitted ++ g.pending) (end_of_stream_element ∷ []),
          f.ending,
          still_open,
        );
  })

  deliver-Sends :
      (g : Gate) (j : ℕ) (e : StreamElement)
      → j < g.inputs
      → Bookkeeping g
      → Sends emitted g
      → Sends emitted (deliver g j e)
  unfolding deliver ends
  deliver-Sends g j (record_element r) lt v f =
      Plain-Forwards g.closed g.out g.pending (record_element r) (λ lo hi h. h) refl f
  deliver-Sends g j (watermark_element w) lt v f =
      advance-Sends (set_watermark g j w) (record { climbing = f.climbing; ending = f.ending })
  deliver-Sends g j (barrier_element b) lt v f =
      on_barrier_cases (Sends emitted) g j b (λ _ _. unfold mark_aligned in f)
        (complete_alignment-Sends (mark_aligned g j b) (mark_aligned-Bookkeeping g j b lt v)
          (unfold mark_aligned in f))
  deliver-Sends g j end_of_stream_element lt v f =
      on_end_of_stream_cases (Sends emitted) g j (λ _. f)
        (λ first.
          let w = mark_exhausted-Bookkeeping g j lt first v in
          let a = advance (mark_exhausted g j) in
          complete_alignment-Sends (close_output a)
            (close_output-Bookkeeping a (advance_cases Bookkeeping _ (λ _. w) (λ _. w)))
            (close_output-Sends a
              (advance-Sends (mark_exhausted g j) (unfold mark_exhausted in f))))

handle-Sends :
    (emitted : List StreamElement) (g : Gate) (t : Tagged)
    → t.input < g.inputs
    → Bookkeeping g
    → Sends emitted g
    → Sends emitted (handle g t)
handle-Sends emitted g t lt v f =
    handle_cases (Sends emitted) g t (λ _. f) (λ _. deliver-Sends emitted g t.input t.elem lt v f)

record Sent (n : ℕ) (arrivals : List Tagged) (r : Run) : Type 0 where
  run : RunInv n arrivals r
  sent : Sends r.emitted r.gate

tick-Sent :
    (n : ℕ) (arrivals : List Tagged) (r : Run) → Sent n arrivals r → Sent n arrivals (tick r)
tick-Sent n arrivals r v = record {
  run = tick-RunInv n arrivals r v.run;
  sent =
      tick_cases (λ s. Sends s.emitted s.gate) r v.sent
        (λ e es p.
          let q : (r.emitted ++ e ∷ []) ++ es ≡ r.emitted ++ r.gate.pending =
            append_assoc r.emitted (e ∷ []) es ∙ rw p in
          record {
            climbing = subst (λ out. Climbs min_int64 out r.gate.out) (sym q) v.sent.climbing;
            ending = ap ends q ∙ v.sent.ending;
          })
        (λ t ts _ p.
          handle-Sends r.emitted (replayed r.gate ts) t
            (rw v.run.inputs (subst (InRange n) p v.run.replays).0) v.run.inv.books v.sent)
        (λ t ts _ _ p.
          handle-Sends r.emitted r.gate t (rw v.run.inputs (subst (InRange n) p v.run.arriving).0)
            v.run.inv.books v.sent);
}

-- In every round of every run, whatever the inputs send: the watermarks of the output rise strictly,
-- from above the least int64 to at most `out`, and the output has one end of stream if the gate has
-- closed and none otherwise.
pub play-watermarks :
    (n : ℕ) (fs : Faults) (arrivals : List Tagged) (k : ℕ)
    → InRange n arrivals
    → let r = play k (start n fs arrivals) in
      Climbs min_int64 (output r) r.gate.out × (ends (output r) ≡ (if r.gate.closed then 1 else 0))
play-watermarks n fs arrivals k h = (v.sent.climbing, v.sent.ending)
  where
    v : Sent n arrivals (play k (start n fs arrivals))
    v = play-keeps (Sent n arrivals) (tick-Sent n arrivals) k (start n fs arrivals) (record {
      run = start-RunInv n fs arrivals h;
      sent = unfold new_gate ends in record { climbing = omega arith; ending = refl };
    })

-- The minimum is at most every live watermark, and it is one of them or, with no live input, the
-- greatest int64.
pub minimum_lem :
    (eos : ℕ → Bool) (ws : ℕ → ℤ) (n : ℕ)
    → (min_live eos ws n ≡ max_int64)
      ⊎ ((i : ℕ) × (i < n) × (eos i ≡ false) × (min_live eos ws n ≡ ws i))
unfolding min_live
minimum_lem eos ws zero = inl refl
minimum_lem eos ws (suc n) = elim (Bool-cases (eos n)) [
  | inl dead ↦ rw dead (elim (minimum_lem eos ws n) [
    | inl e ↦ inl e
    | inr (i, lt, live, e) ↦ inr (i, omega arith, live, e)
  ])
  | inr live ↦ rw live (elim (Bool-cases (ltb_ℤ (ws n) (min_live eos ws n))) [
    | inl less ↦ rw less (inr (n, omega arith, live, refl))
    | inr more ↦ rw more (elim (minimum_lem eos ws n) [
      | inl e ↦ inl e
      | inr (i, lt, l, e) ↦ inr (i, omega arith, l, e)
    ])
  ])
]

-- A watermark that `advance` forwards lies above the last one and is the minimum over the live
-- inputs: at most each of their watermarks, and equal to one of them or, with none left, the
-- greatest int64. Otherwise `advance` changes nothing.
pub advance_lem :
    (g : Gate)
    → ((advance g ≡ g) × (minimum g ≤ℤ g.out))
      ⊎ (((advance g).pending ≡ g.pending ++ watermark_element (advance g).out ∷ [])
          × (g.out <ℤ (advance g).out)
          × ((i : ℕ) → i < g.inputs → g.end_of_stream i ≡ false → (advance g).out ≤ℤ g.watermarks i)
          × (((advance g).out ≡ max_int64)
              ⊎ ((i : ℕ) × (i < g.inputs)
                  × (g.end_of_stream i ≡ false)
                  × ((advance g).out ≡ g.watermarks i))))
advance_lem g =
    advance_cases
      (λ a.
        ((a ≡ g) × (minimum g ≤ℤ g.out))
        ⊎ ((a.pending ≡ g.pending ++ watermark_element a.out ∷ [])
            × (g.out <ℤ a.out)
            × ((i : ℕ) → i < g.inputs → g.end_of_stream i ≡ false → a.out ≤ℤ g.watermarks i)
            × ((a.out ≡ max_int64)
                ⊎ ((i : ℕ) × (i < g.inputs)
                    × (g.end_of_stream i ≡ false)
                    × (a.out ≡ g.watermarks i)))))
      g (λ le. inl (refl, le))
      (λ up. inr (
        refl,
        up,
        min_live-le g.end_of_stream g.watermarks g.inputs,
        minimum_lem g.end_of_stream g.watermarks g.inputs,
      ))
