-- ===== src/Checkpoint/Coordinator/Invariant.antt =====
-- pkg/checkpoint/coordinator.go: a checkpoint counts as complete only when everything it consists of
-- is on the disk, and complete and abandoned are final.
use tidemark.Prelude.{
  ℕ, ◌≡◌, refl, sym, ◌∙◌, subst, ℤ, eqb_ℤ, eqb_ℤ_iff, true, false, none, some, List, [], ◌∷◌,
  Bool-cases, Option-cases, inl, inr, arith,
}
use tidemark.Checkpoint.Keys.{SubtaskKey, key_eq, key_eq_iff, contains, Metadata, subtasks}
use tidemark.Checkpoint.Coordinator.{
  Storage, CheckpointState, Coordinator, fresh, state_for, set_state, mention, abandon,
  mark_complete, with_disk, write_missing, complete, acknowledged, acknowledge, finish_one, fail,
  is_completed, is_abandoned, new_coordinator, distinct,
}
use tidemark.Checkpoint.Coordinator.Cases.{
  complete_cases, acknowledge_cases, finish_one_cases, finished_cases, finish_all-keeps,
}
use tidemark.Checkpoint.Coordinator.Durable.{
  Call, acks, finishes, fails, step, run, run-keeps, Grows, Grows-refl, Grows-trans, write-Grows,
  marker-Grows, write_missing-Grows, write_missing-stores,
}

module _ (S : Storage) where
  open S use {
    Disk, HasState, IsMarked, write, write_stores, complete_marks, complete as write_marker,
  }

  -- What the record of checkpoint `id` says, the disk bears out.
  pub record Sound (d : Disk) (expected : List SubtaskKey) (id : ℤ) (st : CheckpointState)
      : Type 0 where
    pub exclusive : st.complete ≡ true → st.abandoned ≡ false
    pub acked_stored : (k : SubtaskKey) → contains st.acked k ≡ true → HasState d id k
    pub all_stored :
        st.complete ≡ true → (k : SubtaskKey) → contains expected k ≡ true → HasState d id k
    pub marked : st.complete ≡ true → IsMarked d id

  Sound-Grows :
      {d d' : Disk} {expected : List SubtaskKey} {id : ℤ} {st : CheckpointState}
      → Grows S d d'
      → Sound d expected id st
      → Sound d' expected id st
  Sound-Grows {id} g s = record {
    exclusive = s.exclusive;
    acked_stored = λ k a. g.stored id k (s.acked_stored k a);
    all_stored = λ c k e. g.stored id k (s.all_stored c k e);
    marked = λ c. g.marked id (s.marked c);
  }

  Sound-fresh : (d : Disk) (expected : List SubtaskKey) (id : ℤ) → Sound d expected id fresh
  unfolding contains
  Sound-fresh d expected id = record {
    exclusive = λ c. absurd (ground arith);
    acked_stored = λ k a. absurd (ground arith);
    all_stored = λ c. absurd (ground arith);
    marked = λ c. absurd (ground arith);
  }

  pub record CoordinatorInv (expected : List SubtaskKey) (c : Coordinator Disk) : Type 0 where
    pub expecting : c.expected ≡ expected
    pub sound : (id : ℤ) (st : CheckpointState) → c.state id ≡ some st → Sound c.disk expected id st

  -- A change of one checkpoint's record, over a disk that has grown.
  set_state-Inv :
      (expected : List SubtaskKey) (id : ℤ) (st : CheckpointState) (c : Coordinator Disk) (d : Disk)
      → Grows S c.disk d
      → Sound d expected id st
      → CoordinatorInv expected c
      → CoordinatorInv expected (set_state id st (with_disk c d))
  set_state-Inv expected id st c d g s v = record {
    expecting = v.expecting;
    sound = λ i x e. elim (Bool-cases (eqb_ℤ id i)) [
      | inl same ↦
          subst (λ k. Sound d expected k x) ((eqb_ℤ_iff id i).0 same)
            (subst (Sound d expected id) (ground arith) s)
      | inr other ↦ Sound-Grows g (v.sound i x (ground arith))
    ];
  }

  state_for-Sound :
      (expected : List SubtaskKey) (c : Coordinator Disk) (id : ℤ)
      → CoordinatorInv expected c
      → Sound c.disk expected id (state_for c id)
  state_for-Sound expected c id v = elim (Option-cases (c.state id)) [
    | inl e ↦ rw e (Sound-fresh c.disk expected id)
    | inr (st, e) ↦ rw e (v.sound id st e)
  ]

  mention-Inv :
      (expected : List SubtaskKey) (c : Coordinator Disk) (id : ℤ)
      → CoordinatorInv expected c
      → CoordinatorInv expected (mention c id)
  unfolding mention
  mention-Inv expected c id v =
      let w =
        set_state-Inv expected id (state_for c id) c c.disk (Grows-refl S c.disk)
          (state_for-Sound expected c id v) v in
      record { expecting = w.expecting; sound = w.sound }

  -- A checkpoint that is not complete may be abandoned.
  abandon-Inv :
      (expected : List SubtaskKey) (id : ℤ) (st : CheckpointState) (c : Coordinator Disk) (d : Disk)
      → Grows S c.disk d
      → st.complete ≡ false
      → CoordinatorInv expected c
      → CoordinatorInv expected (abandon id st (with_disk c d))
  unfolding abandon contains
  abandon-Inv expected id st c d g nc v =
      let w =
        set_state-Inv expected id (record st { abandoned = true; acked = [] }) c d g
          (record {
            exclusive = λ e. absurd (ground (arith, nc));
            acked_stored = λ k a. absurd (ground arith);
            all_stored = λ e. absurd (ground (arith, nc));
            marked = λ e. absurd (ground (arith, nc));
          })
          v in
      record { expecting = w.expecting; sound = w.sound }

  -- `complete` keeps the invariant, if those that acknowledged have a state on the disk.
  complete-Inv :
      (expected : List SubtaskKey) (id : ℤ) (st : CheckpointState) (c : Coordinator Disk)
      → st.complete ≡ false
      → st.abandoned ≡ false
      → ((k : SubtaskKey) → contains st.acked k ≡ true → HasState c.disk id k)
      → CoordinatorInv expected c
      → CoordinatorInv expected (complete S id st c).1
  unfolding contains
  complete-Inv expected id st c nc na a v =
      let m = write_missing S c.expected id st.acked c.done c.disk in
      let g = write_missing-Grows S c.expected id st.acked c.done c.disk in
      let gk = Grows-trans S g (marker-Grows S id c.meta m.1) in
      complete_cases S (λ o. CoordinatorInv expected o.1) id st c
        (λ e _. abandon-Inv expected id st c m.1 g nc v)
        (λ e _ _. abandon-Inv expected id st c (write_marker id c.meta m.1).1 gk nc v)
        (λ stored done.
          let d = (write_marker id c.meta m.1).1 in
          let w =
            set_state-Inv expected id (record st { complete = true; acked = [] }) c d gk
              (record {
                exclusive = λ _. na;
                acked_stored = λ k e. absurd (ground arith);
                all_stored = λ _ k e. (marker-Grows S id c.meta m.1).stored id k (
                    write_missing-stores S c.expected id st.acked c.done c.disk stored a k
                      (subst (λ ks. contains ks k ≡ true) (sym v.expecting) e));
                marked = λ _. complete_marks id c.meta m.1 done;
              })
              v in
          unfold mark_complete in record { expecting = w.expecting; sound = w.sound })

  -- A live checkpoint's record with one more acknowledgement, whose state was just written.
  acknowledged-Sound :
      (expected : List SubtaskKey) (id : ℤ) (key : SubtaskKey) (p : List ℕ) (st : CheckpointState)
      (d : Disk)
      → st.complete ≡ false
      → (write id key p d).0 ≡ none
      → Sound d expected id st
      → Sound (write id key p d).1 expected id (acknowledged S key st)
  unfolding contains
  acknowledged-Sound expected id key p st d nc ok s = record {
    exclusive = λ e. absurd (ground (arith, nc));
    acked_stored = λ k a. elim (Bool-cases (key_eq key k)) [
      | inl same ↦
          subst (HasState (write id key p d).1 id) ((key_eq_iff key k).0 same)
            (write_stores id key p d ok)
      | inr other ↦ (write-Grows S id key p d).stored id k (s.acked_stored k (ground arith))
    ];
    all_stored = λ e. absurd (ground (arith, nc));
    marked = λ e. absurd (ground (arith, nc));
  }

  acknowledge-Inv :
      (expected : List SubtaskKey) (id : ℤ) (key : SubtaskKey) (p : List ℕ) (c : Coordinator Disk)
      → CoordinatorInv expected c
      → CoordinatorInv expected (acknowledge S id key p c).1
  acknowledge-Inv expected id key p c v =
      let st = state_for c id in
      let d = (write id key p c.disk).1 in
      let g : Grows S (mention c id).disk d = unfold mention in write-Grows S id key p c.disk in
      let vm = mention-Inv expected c id v in
      let more = λ (ok : (write id key p c.disk).0 ≡ none) (nc : st.complete ≡ false).
        acknowledged-Sound expected id key p st c.disk nc ok (state_for-Sound expected c id v) in
      acknowledge_cases S (λ o. CoordinatorInv expected o.1) id key p c (λ _. v) (λ _. vm)
        (λ _ _. vm) (λ e _ nc. abandon-Inv expected id st (mention c id) d g nc vm)
        (λ ok na nc _ _.
          set_state-Inv expected id (acknowledged S key st) (mention c id) d g (more ok nc) vm)
        (λ ok na nc _ _.
          complete-Inv expected id (acknowledged S key st) _ nc na (more ok nc).acked_stored
            (set_state-Inv expected id (acknowledged S key st) (mention c id) d g (more ok nc) vm))

  finish_one-Inv :
      (expected : List SubtaskKey) (id : ℤ) (c : Coordinator Disk)
      → CoordinatorInv expected c
      → CoordinatorInv expected (finish_one S id c).1
  finish_one-Inv expected id c v =
      finish_one_cases S (λ o. CoordinatorInv expected o.1) id c (λ _. v) (λ _. v)
        (λ live _.
          complete-Inv expected id (state_for c id) c (ground arith) (ground arith)
            (state_for-Sound expected c id v).acked_stored v)

  -- Every method keeps the invariant, whatever its arguments and whichever writes fail.
  step-Inv :
      (expected : List SubtaskKey) (c : Coordinator Disk) (x : Call)
      → CoordinatorInv expected c
      → CoordinatorInv expected (step S c x)
  unfolding step fail mention
  step-Inv expected c (acks id key p) v = acknowledge-Inv expected id key p c v
  step-Inv expected c (finishes key p) v =
      finished_cases S (λ o. CoordinatorInv expected o.1) key p c v v
        (λ _ _.
          finish_all-keeps S (CoordinatorInv expected) (finish_one-Inv expected) c.ids _
            (record { expecting = v.expecting; sound = v.sound }))
  step-Inv expected c (fails id) v = elim (Bool-cases (state_for c id).complete) [
    | inl e ↦ rw e (mention-Inv expected c id v)
    | inr e ↦ rw e (
        abandon-Inv expected id (state_for c id) (mention c id) c.disk
          (unfold mention in Grows-refl S c.disk) e (mention-Inv expected c id v))
  ]

  new-Inv :
      (d : Disk) (m : Metadata)
      → CoordinatorInv (distinct (subtasks m.vertices)) (new_coordinator d m)
  unfolding new_coordinator
  new-Inv d m = record { expecting = refl; sound = λ id st e. absurd (ground arith) }

contains-distinct :
    (ks : List SubtaskKey) (k : SubtaskKey) → contains (distinct ks) k ≡ contains ks k
unfolding contains distinct
contains-distinct [] k = refl
contains-distinct (j ∷ ks) k =
    let rest = contains-distinct ks k in
    elim (Bool-cases (contains (distinct ks) j)) [
      | inr e ↦ rw (e, contains) (ground (arith, rest))
      | inl e ↦ elim (Bool-cases (key_eq j k)) [
        | inl same ↦ rw e (
            subst (λ x. contains (distinct ks) x ≡ true) ((key_eq_iff j k).0 same) e
            ∙ ground (arith, same))
        | inr other ↦ rw e (ground (arith, rest, other))
      ]
    ]

-- The record of a checkpoint that `Completed` reports.
completed-state :
    {D : Type 0} (c : Coordinator D) (id : ℤ)
    → is_completed c id ≡ true
    → (st : CheckpointState) × (c.state id ≡ some st) × (st.complete ≡ true)
unfolding is_completed
completed-state c id h = elim (Option-cases (c.state id)) [
  | inl e ↦ absurd (ground (arith, rw e at h))
  | inr (st, e) ↦ (st, e, rw e at h)
]

-- After any calls on a new coordinator, whatever their order and whichever writes fail: a checkpoint
-- that `Completed` reports has its marker on the disk and a state for every subtask of the job, and
-- it is not reported by `Abandoned`.
pub run-durable :
    (S : Storage) (d : S.Disk) (m : Metadata) (xs : List Call) (id : ℤ)
    → let c = run S (new_coordinator d m) xs in
      is_completed c id ≡ true
      → S.IsMarked c.disk id
        × ((k : SubtaskKey) → contains (subtasks m.vertices) k ≡ true → S.HasState c.disk id k)
        × (is_abandoned c id ≡ false)
unfolding is_abandoned
run-durable S d m xs id h =
    let ks = distinct (subtasks m.vertices) in
    let v =
      run-keeps S (CoordinatorInv S ks) (step-Inv S ks) (new_coordinator d m) xs (new-Inv S d m) in
    let (st, e, done) = completed-state (run S (new_coordinator d m) xs) id h in
    let s = v.sound id st e in
    (
      s.marked done,
      (λ k x. s.all_stored done k (contains-distinct (subtasks m.vertices) k ∙ x)),
      rw e (s.exclusive done),
    )
