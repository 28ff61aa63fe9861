-- ===== src/Checkpoint/Coordinator/Finality.antt =====
-- pkg/checkpoint/coordinator.go: the record of a checkpoint that is complete or abandoned is final.
use tidemark.Prelude.{
  ℕ, ◌≡◌, refl, sym, ap, ◌∙◌, subst, ℤ, eqb_ℤ, eqb_ℤ_iff, update_at, Bool, true, false, ◌||◌,
  Option, none, some, List, [], Bool-cases, if_cases, inl, inr,
}
use tidemark.Checkpoint.Keys.{SubtaskKey, Metadata}
use tidemark.Checkpoint.Coordinator.{
  Storage, CheckpointState, Coordinator, terminal, state_or_fresh, state_for, mention, abandon,
  new_coordinator, mark_complete, with_disk, complete, acknowledged, acknowledge, finish_one, fail,
  is_completed, is_abandoned, completed_state, abandoned_state, set_state,
}
use tidemark.Checkpoint.Coordinator.Cases.{
  complete_cases, acknowledge_cases, finish_one_cases, finished_cases, finish_all-keeps,
}
use tidemark.Checkpoint.Coordinator.Durable.{Call, acks, finishes, fails, step, run, run-keeps}

-- `c.state`: the records of the checkpoints that were mentioned.
abbrev Records : Type 0
Records = ℤ → Option CheckpointState

abbrev with_record : Records → ℤ → CheckpointState → Records
with_record f j st = update_at f j (some st)

-- Nothing is acknowledged any more for what is complete or abandoned.
abbrev IsTidy : CheckpointState → Type 0
IsTidy st = terminal st ≡ true → st.acked ≡ []

abbrev abandoned_record : CheckpointState → CheckpointState
abandoned_record st = record st { abandoned = true; acked = [] }

-- The three ways in which a call changes the records.
record IsKept {ℓ} (P : Records → Type ℓ) : Type ℓ where
  mentions : (f : Records) (j : ℤ) → P f → P (with_record f j (state_or_fresh (f j)))
  moves :
      (f : Records) (j : ℤ) (st : CheckpointState)
      → terminal (state_or_fresh (f j)) ≡ false
      → IsTidy st
      → P f
      → P (with_record f j st)
  abandons :
      (f : Records) (j : ℤ) (st : CheckpointState)
      → state_or_fresh (f j) ≡ st
      → st.complete ≡ false
      → P f
      → P (with_record f j (abandoned_record st))

module _ {ℓ} (S : Storage) (P : Records → Type ℓ) (kept : IsKept P) where
  open S use {Disk, write}

  abbrev Holds : Coordinator Disk → Type ℓ
  Holds c = P c.state

  mention-Holds : (c : Coordinator Disk) (j : ℤ) → Holds c → Holds (mention c j)
  unfolding mention
  mention-Holds c j h = kept.mentions c.state j h

  -- A record that is mentioned is the same.
  mention-same : (c : Coordinator Disk) (j : ℤ) → state_for (mention c j) j ≡ state_for c j
  unfolding mention
  mention-same c j = let same = (eqb_ℤ_iff j j).1 refl in rw same refl

  complete-Holds :
      (j : ℤ) (st : CheckpointState) (c : Coordinator Disk)
      → terminal (state_for c j) ≡ false
      → Holds c
      → Holds (complete S j st c).1
  unfolding abandon mark_complete
  complete-Holds j st c live h =
      complete_cases S (λ o. Holds o.1) j st c (λ _ _. kept.moves c.state j _ live (λ _. refl) h)
        (λ _ _ _. kept.moves c.state j _ live (λ _. refl) h)
        (λ _ _. kept.moves c.state j _ live (λ _. refl) h)

  acknowledge-Holds :
      (j : ℤ) (key : SubtaskKey) (p : List ℕ) (c : Coordinator Disk)
      → Holds c
      → Holds (acknowledge S j key p c).1
  unfolding abandon
  acknowledge-Holds j key p c h =
      let st = state_for c j in
      let same = (eqb_ℤ_iff j j).1 refl in
      let hm = mention-Holds c j h in
      let d = (write j key p c.disk).1 in
      let m = with_disk (mention c j) d in
      let live : st.abandoned ≡ false
          → st.complete ≡ false
          → terminal (state_for (mention c j) j) ≡ false =
        λ na nc. ap terminal (mention-same c j) ∙ rw (na, nc) refl in
      let counted : st.abandoned ≡ false
          → st.complete ≡ false
          → Holds (set_state j (acknowledged S key st) m) =
        λ na nc.
          kept.moves m.state j (acknowledged S key st) (live na nc)
            (λ t. absurd (cc (rw (na, nc) at t))) hm in
      acknowledge_cases S (λ o. Holds o.1) j key p c (λ _. h) (λ _. hm) (λ _ _. hm)
        (λ _ na nc. kept.moves m.state j _ (live na nc) (λ _. refl) hm)
        (λ _ na nc _ _. counted na nc)
        (λ _ na nc _ _.
          complete-Holds j _ (set_state j (acknowledged S key st) m) (rw (same, na, nc) refl)
            (counted na nc))

  finish_one-Holds : (j : ℤ) (c : Coordinator Disk) → Holds c → Holds (finish_one S j c).1
  finish_one-Holds j c h =
      finish_one_cases S (λ o. Holds o.1) j c (λ _. h) (λ _. h)
        (λ live _. complete-Holds j (state_for c j) c live h)

  step-Holds : (c : Coordinator Disk) (x : Call) → Holds c → Holds (step S c x)
  unfolding step fail abandon
  step-Holds c (acks j key p) h = acknowledge-Holds j key p c h
  step-Holds c (finishes key p) h =
      finished_cases S (λ o. Holds o.1) key p c h h
        (λ _ _. finish_all-keeps S Holds finish_one-Holds c.ids _ h)
  step-Holds c (fails j) h =
      if_cases Holds (state_for c j).complete _ _ (λ _. mention-Holds c j h)
        (λ nc.
          kept.abandons (mention c j).state j (state_for c j) (mention-same c j) nc
            (mention-Holds c j h))

  run-Holds : (c : Coordinator Disk) (xs : List Call) → Holds c → Holds (run S c xs)
  run-Holds c xs h = run-keeps S Holds step-Holds c xs h

-- Every record is tidy.
abbrev AllTidy : Records → Type 0
AllTidy f = (i : ℤ) → IsTidy (state_or_fresh (f i))

with_record-AllTidy :
    (f : Records) (j : ℤ) (st : CheckpointState)
    → IsTidy st
    → AllTidy f
    → AllTidy (with_record f j st)
with_record-AllTidy f j st t a i = elim (Bool-cases (eqb_ℤ j i)) [
  | inl same ↦ rw same t
  | inr other ↦ rw other (a i)
]

AllTidy-IsKept : IsKept AllTidy
AllTidy-IsKept = record {
  mentions = λ f j a. with_record-AllTidy f j (state_or_fresh (f j)) (a j) a;
  moves = λ f j st live t a. with_record-AllTidy f j st t a;
  abandons = λ f j st e nc a. with_record-AllTidy f j (abandoned_record st) (λ _. refl) a;
}

-- The record of `id` is `s`.
module _ (id : ℤ) (s : CheckpointState) (over : terminal s ≡ true) (t : IsTidy s) where
  abbrev IsRecord : Records → Type 0
  IsRecord f = f id ≡ some s

  with_record-IsRecord :
      (f : Records) (j : ℤ) (st : CheckpointState)
      → (state_or_fresh (f j) ≡ s → st ≡ s)
      → IsRecord f
      → IsRecord (with_record f j st)
  with_record-IsRecord f j st keep h = elim (Bool-cases (eqb_ℤ j id)) [
    | inl same ↦ rw same (
        ap some
          (keep (ap (λ k. state_or_fresh (f k)) ((eqb_ℤ_iff j id).0 same) ∙ ap state_or_fresh h)))
    | inr other ↦ rw other h
  ]

  abandoned_again :
      (a : List SubtaskKey) (c b : Bool)
      → c ≡ false
      → (c || b) ≡ true
      → a ≡ []
      → abandoned_record (record { acked = a; complete = c; abandoned = b })
        ≡ record { acked = a; complete = c; abandoned = b }
  abandoned_again a true b nc o e = absurd (cc (nc))
  abandoned_again a false false nc o e = absurd (cc (o))
  abandoned_again a false true nc o e = rw e refl

  IsRecord-IsKept : IsKept IsRecord
  IsRecord-IsKept = record {
    mentions = λ f j h. with_record-IsRecord f j (state_or_fresh (f j)) (λ e. e) h;
    moves = λ f j st live _ h.
        with_record-IsRecord f j st (λ e. absurd (cc (live, ap terminal e, over))) h;
    abandons = λ f j st e nc h.
        with_record-IsRecord f j (abandoned_record st)
          (λ p.
            let same : st ≡ s = sym e ∙ p in
            ap abandoned_record same
            ∙ abandoned_again s.acked s.complete s.abandoned
                (sym (ap (λ (x : CheckpointState). x.complete) same) ∙ nc) over (t over))
          h;
  }

recorded_cases :
    (o : Option CheckpointState)
    → (completed_state o || abandoned_state o) ≡ true
    → (s : CheckpointState) × (o ≡ some s) × (terminal s ≡ true)
unfolding completed_state abandoned_state
recorded_cases none h = absurd (cc (h))
recorded_cases (some s) h = (s, refl, h)

-- After any calls on a new coordinator, whichever writes fail: once a checkpoint is complete or
-- abandoned, no later calls change its record, so neither what Completed and Abandoned report of it
-- nor what is acknowledged for it.
pub run-final :
    (S : Storage) (d : S.Disk) (m : Metadata) (xs ys : List Call) (id : ℤ)
    → let c = run S (new_coordinator d m) xs in
      (is_completed c id || is_abandoned c id) ≡ true
      → ((run S c ys).state id ≡ c.state id)
        × (is_completed (run S c ys) id ≡ is_completed c id)
        × (is_abandoned (run S c ys) id ≡ is_abandoned c id)
        × ((state_for c id).acked ≡ [])
unfolding is_completed is_abandoned new_coordinator
run-final S d m xs ys id h =
    let c = run S (new_coordinator d m) xs in
    let tidy = run-Holds S AllTidy AllTidy-IsKept (new_coordinator d m) xs (λ i over. refl) in
    let (s, e, over) = recorded_cases (c.state id) h in
    let t : IsTidy s = subst (λ o. IsTidy (state_or_fresh o)) e (tidy id) in
    let same = run-Holds S (IsRecord id s over t) (IsRecord-IsKept id s over t) c ys e ∙ sym e in
    (
      same,
      ap completed_state same,
      ap abandoned_state same,
      ap (λ o. (state_or_fresh o).acked) e ∙ t over,
    )
