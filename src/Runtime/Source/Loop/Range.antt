-- ===== src/Runtime/Source/Loop/Range.antt =====
-- pkg/runtime/source_task.go: the loop of a source subtask ends, and a restored one goes on where the
-- checkpoint was taken.
use tidemark.Prelude.{
  ℕ, zero, suc, ◌+◌, ◌-◌, ◌≡◌, ◌<◌, refl, true, Option, none, some, ℤ, pos, negsuc, leb_ℤ, suc_ℤ,
  pos_part, neg_part, ◌<ℤ◌, Bool-cases, Option-cases, inl, inr, arith,
}
use tidemark.Core.{Record}
use tidemark.Runtime.EventTime.{WatermarkGenerator, observe}
use tidemark.Runtime.Source.{BarrierGenerator, on_record}
use tidemark.Runtime.Source.Loop.{
  Next, produced, failed, exhausted, Source, Emitters, Assigned, LoopState, Turn, returns, goes_on,
  sent, inject, advance_watermark, read, turn_in, turn, loop, LoopOutcome,
}

-- What core.Source documents: `Next` advances the position by one, and `SeekTo` sets it.
pub record Positioned (S : Source) : Type 0 where
  pub advances :
      (s : S.State) (r : Record)
      → (S.next s).0 ≡ produced r
      → S.position (S.next s).1 ≡ suc_ℤ (S.position s)
  pub seeks : (o : ℤ) (s : S.State) → (S.seek_to o s).0 ≡ none → S.position (S.seek_to o s).1 ≡ o

-- A position that moves on is closer to the end.
closer :
    (e p q : ℤ) (n : ℕ)
    → p <ℤ e
    → q ≡ suc_ℤ p
    → (pos_part e + neg_part p) - (pos_part p + neg_part e) < suc n
    → (pos_part e + neg_part q) - (pos_part q + neg_part e) < n
closer e (pos p) q n lt m h = rw m (omega (arith, lt, h))
closer e (negsuc zero) q n lt m h = rw m (omega (arith, lt, h))
closer e (negsuc (suc p)) q n lt m h = rw m (omega (arith, lt, h))

module _ (S : Source) (E : Emitters) where
  open S use {State, SourceError, position, next, seek_to}
  open E use {Out, EmitError, context_error, emit_record, emit_watermark, emit_barrier}

  -- The state of the source after a turn that goes on.
  GoesTo : State → Turn S E → Type 0
  GoesTo s t = (l : LoopState S E) → t ≡ goes_on l → l.source ≡ s

  sent-GoesTo :
      (s : State) (at : Out → LoopState S E) (go : Out → Turn S E) (x : Option EmitError × Out)
      → ((o : Out) → GoesTo s (go o))
      → GoesTo s (sent S E at go x)
  unfolding sent GoesTo
  sent-GoesTo s at go (some e, o) h l q = absurd (ground (arith, q))
  sent-GoesTo s at go (none, o) h l q = h o l q

  inject-GoesTo :
      (l : LoopState S E) (x : Option ℤ × BarrierGenerator) → GoesTo l.source (inject S E l x)
  unfolding inject GoesTo
  inject-GoesTo l (none, br) k q = ground (arith, q)
  inject-GoesTo l (some id, br) k q =
      sent-GoesTo l.source (λ o. record l { barriers = br; out = o })
        (λ o. goes_on (record l { barriers = br; out = o }))
        (emit_barrier (record { checkpoint_id = id; timestamp = l.watermarks.last_emitted })
          (position l.source) l.out)
        (λ o h p. ground (arith, p)) k q

  advance_watermark-GoesTo :
      (l : LoopState S E) (x : Option ℤ × WatermarkGenerator)
      → GoesTo l.source (advance_watermark S E l x)
  unfolding advance_watermark
  advance_watermark-GoesTo l (none, wm) =
      inject-GoesTo (record l { watermarks = wm }) (on_record l.barriers)
  advance_watermark-GoesTo l (some w, wm) =
      sent-GoesTo l.source _ _ _
        (λ o. inject-GoesTo (record l { watermarks = wm; out = o }) (on_record l.barriers))

  -- A turn that goes on has read a record.
  read-GoesTo :
      (l k : LoopState S E) (x : Next SourceError × State)
      → read S E l x ≡ goes_on k
      → (r : Record) × (x.0 ≡ produced r) × (k.source ≡ x.1)
  unfolding read
  read-GoesTo l k (failed e, s) q = absurd (ground (arith, q))
  read-GoesTo l k (exhausted, s) q = absurd (ground (arith, q))
  read-GoesTo l k (produced r, s) q = (
    r,
    refl,
    unfold GoesTo in
        sent-GoesTo s _ _ _
          (λ o.
            advance_watermark-GoesTo (record l { source = s; out = o })
              (observe l.watermarks r.event_time))
          k q,
  )

  turn-GoesTo :
      Positioned S
      → (a : Assigned) (l k : LoopState S E) → a.bounded ≡ true
      → turn S E a l ≡ goes_on k
      → (position l.source <ℤ a.end) × (position k.source ≡ suc_ℤ (position l.source))
  unfolding turn turn_in
  turn-GoesTo h a l k b q = elim (Option-cases (context_error l.out)) [
    | inr (x, e) ↦ absurd (ground (arith, rw (e, turn, turn_in) at q))
    | inl e ↦ elim (Bool-cases (leb_ℤ a.end (position l.source))) [
      | inl f ↦ absurd (ground (arith, rw (e, b, f, turn, turn_in) at q))
      | inr f ↦
          let (r, p, same) = read-GoesTo l k (next l.source) (rw (e, b, f, turn, turn_in) at q) in
          (ground (arith, f), rw same (h.advances l.source r p))
    ]
  ]

  -- The offsets from the source's position to the end of the range.
  abbrev pub remaining : Assigned → LoopState S E → ℕ
  remaining a l =
      (pos_part a.end + neg_part (position l.source))
      - (pos_part (position l.source) + neg_part a.end)

  -- The loop of a bounded source returns, if it may take more turns than there are offsets left.
  pub loop_total :
      Positioned S
      → (fuel : ℕ) (a : Assigned) (l : LoopState S E) → a.bounded ≡ true
      → remaining a l < fuel
      → (o : LoopOutcome S E) × (loop S E fuel a l ≡ some o)
  unfolding loop
  loop_total h zero a l b lt = absurd (omega arith)
  loop_total h (suc fuel) a l b lt = step (λ k. loop_total h fuel a k b) (turn S E a l) refl
    where
      step :
          ((k : LoopState S E)
            → remaining a k < fuel
            → (o : LoopOutcome S E) × (loop S E fuel a k ≡ some o))
          → (t : Turn S E) → turn S E a l ≡ t
          → (o : LoopOutcome S E) × ((elim t [
            | returns x k ↦ some (x, k)
            | goes_on k ↦ loop S E fuel a k
          ])
              ≡ some o)
      step again (returns x k) q = (_, refl)
      step again (goes_on k) q =
          let (below, moved) = turn-GoesTo h a l k b q in
          again k (closer a.end (position l.source) (position k.source) fuel below moved lt)
