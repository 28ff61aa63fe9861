-- ===== src/Runtime/Source/Loop/Resume.antt =====
-- pkg/runtime/source_task.go: a restored source subtask stands where the checkpoint was taken.
use tidemark.Prelude.{
  ℕ, ◌*◌, ◌≡◌, ◌<◌, ◌≤◌, refl, sym, ap, ◌∙◌, true, ◌&&◌, ◌||◌, Option, none, some, pos, ltb_ℤ, ◌≤ℤ◌,
  Bool-cases, inl, inr, arith,
}
use tidemark.Runtime.Source.{BarrierGenerator, new_barrier_generator}
use tidemark.Runtime.Source.Barriers.{after_records, after_records_whole}
use tidemark.Runtime.Source.Loop.{Source, Emitters, SourceResume, Assigned, apply, seek_resumed}
use tidemark.Runtime.Source.Loop.Range.{Positioned}

module _ (S : Source) (E : Emitters) where
  open S use {State, SourceError, position, seek_to}

  seek_resumed-none :
      (r : SourceResume) (br : BarrierGenerator) (x : Option SourceError × State)
      → (seek_resumed S E r br x).0 ≡ none
      → (x.0 ≡ none)
        × (seek_resumed S E r br x
            ≡ (none, record br { injected = r.barriers_injected; since_last = pos 0 }, x.1))
  unfolding seek_resumed
  seek_resumed-none r br (some e, s) h = absurd (ground (arith, h))
  seek_resumed-none r br (none, s) h = (refl, refl)

  -- What `apply` has checked and done if it reports no error.
  apply-none :
      (r : SourceResume) (br : BarrierGenerator) (a : Assigned) (s : State)
      → (apply S E r br a s).0 ≡ none
      → (a.bounded ≡ true → (a.start ≤ℤ r.position) × (r.position ≤ℤ a.end))
        × (pos 0 ≤ℤ r.position)
        × ((seek_to r.position s).0 ≡ none)
        × (apply S E r br a s ≡ (
          none,
          record br { injected = r.barriers_injected; since_last = pos 0 },
          (seek_to r.position s).1,
        ))
  unfolding apply
  apply-none r br a s h =
      elim (Bool-cases (a.bounded && (ltb_ℤ r.position a.start || ltb_ℤ a.end r.position))) [
        | inl e ↦ absurd (ground (arith, rw (e, apply) at h))
        | inr e ↦ elim (Bool-cases (ltb_ℤ r.position (pos 0))) [
          | inl f ↦ absurd (ground (arith, rw (e, f, apply) at h))
          | inr f ↦
              let (ok, same) =
                seek_resumed-none r br (seek_to r.position s) (rw (e, f, apply) at h) in
              (λ b. ground (arith, e, b), ground (arith, f), ok, rw (e, f) same)
        ]
      ]

  -- A subtask restored from its `j`-th checkpoint, if `apply` reports no error: the source stands at
  -- the restored offset, which is in the subtask's range, and the generator is the one that had
  -- counted `j` intervals of records in the run that was checkpointed.
  pub apply_lem :
      Positioned S
      → (k m j : ℕ) (r : SourceResume) (a : Assigned) (s : State) → 0 < k
      → k ≤ 9223372036854775807
      → m ≤ 9223372036854775807
      → j ≤ m
      → r.barriers_injected ≡ pos j
      → let fresh = new_barrier_generator (pos k) (pos m) in
        let o = apply S E r fresh a s in
        o.0 ≡ none
        → (position o.2 ≡ r.position)
          × (a.bounded ≡ true → (a.start ≤ℤ r.position) × (r.position ≤ℤ a.end))
          × (o.1 ≡ after_records (j * k) fresh)
  unfolding new_barrier_generator
  apply_lem h k m j r a s kp kl ml le at none_yet =
      let fresh = new_barrier_generator (pos k) (pos m) in
      let (inside, _, ok, same) = apply-none r fresh a s none_yet in
      (
        ap (λ o. position o.2) same ∙ h.seeks r.position s ok,
        inside,
        ap (λ o. o.1) same
            ∙ ap (λ i. record fresh { injected = i; since_last = pos 0 }) at
            ∙ sym (after_records_whole k m j kp kl ml le),
      )
