-- ===== src/Checkpoint/Coordinator/Cases.antt =====
-- pkg/checkpoint/coordinator.go: how each method branches, as one rule for each.
use tidemark.Prelude.{
  ℕ, ◌<◌, ◌≡◌, refl, ℤ, true, false, ◌||◌, Option, none, some, List, [], ◌∷◌, ltb, Bool-cases,
  Option-cases, inl, inr, arith,
}
use tidemark.Checkpoint.Keys.{SubtaskKey, contains}
use tidemark.Checkpoint.Coordinator.{
  Storage, CheckpointState, Coordinator, terminal, outstanding, state_for, set_state, mention,
  abandon, mark_complete, with_disk, Outcome, write_missing, after_missing, after_marker, complete,
  count_ack, after_write, acknowledged, acknowledge, finish_one, finish_all, finished, is_done,
  unknown_subtask, duplicate_ack, duplicate_finish, storage_error,
}

module _ {ℓ} (S : Storage) (P : Outcome S → Type ℓ) where
  open S use {Disk, StorageError, write, complete as write_marker}

  after_marker_cases :
      (id : ℤ) (st : CheckpointState) (c : Coordinator Disk) (o : Option StorageError × Disk)
      → ((e : StorageError)
          → o.0 ≡ some e
          → P (some (storage_error e), abandon id st (with_disk c o.1)))
      → (o.0 ≡ none → P (none, mark_complete id st (with_disk c o.1)))
      → P (after_marker S id st c o)
  unfolding after_marker
  after_marker_cases id st c (some e, d) bad good = bad e refl
  after_marker_cases id st c (none, d) bad good = good refl

  after_missing_cases :
      (id : ℤ) (st : CheckpointState) (c : Coordinator Disk) (o : Option StorageError × Disk)
      → ((e : StorageError)
          → o.0 ≡ some e
          → P (some (storage_error e), abandon id st (with_disk c o.1)))
      → (o.0 ≡ none → P (after_marker S id st c (write_marker id c.meta o.1)))
      → P (after_missing S id st c o)
  unfolding after_missing
  after_missing_cases id st c (some e, d) bad good = bad e refl
  after_missing_cases id st c (none, d) bad good = good refl

  -- `complete`: the missing payloads fail, the marker fails, or both are written.
  pub complete_cases :
      (id : ℤ) (st : CheckpointState) (c : Coordinator Disk)
      → let m = write_missing S c.expected id st.acked c.done c.disk in
        let k = write_marker id c.meta m.1 in
        ((e : StorageError)
          → m.0 ≡ some e
          → P (some (storage_error e), abandon id st (with_disk c m.1)))
        → ((e : StorageError)
            → m.0 ≡ none
            → k.0 ≡ some e
            → P (some (storage_error e), abandon id st (with_disk c k.1)))
        → (m.0 ≡ none → k.0 ≡ none → P (none, mark_complete id st (with_disk c k.1)))
        → P (complete S id st c)
  unfolding complete
  complete_cases id st c bad_state bad_marker good =
      after_missing_cases id st c _ bad_state
        (λ stored. after_marker_cases id st c _ (λ e. bad_marker e stored) (good stored))

  count_ack_cases :
      (id : ℤ) (key : SubtaskKey) (st : CheckpointState) (c : Coordinator Disk)
      → let st' = acknowledged S key st in
        (0 < outstanding c st' → P (none, set_state id st' c))
        → (outstanding c st' ≡ 0 → P (complete S id st' (set_state id st' c)))
        → P (count_ack S id key st c)
  unfolding count_ack
  count_ack_cases id key st c wait last =
      elim (Bool-cases (ltb 0 (outstanding c (acknowledged S key st)))) [
        | inl e ↦ rw e (wait (ground arith))
        | inr e ↦ rw e (last (ground arith))
      ]

  after_write_cases :
      (id : ℤ) (key : SubtaskKey) (st : CheckpointState) (c : Coordinator Disk)
      (o : Option StorageError × Disk)
      → ((e : StorageError)
          → o.0 ≡ some e
          → P (some (storage_error e), abandon id st (with_disk c o.1)))
      → (o.0 ≡ none → P (count_ack S id key st (with_disk c o.1)))
      → P (after_write S id key st c o)
  unfolding after_write
  after_write_cases id key st c (some e, d) bad good = bad e refl
  after_write_cases id key st c (none, d) bad good = good refl

  -- `Acknowledge`: refused, ignored, a failed write, counted, or the last one.
  pub acknowledge_cases :
      (id : ℤ) (key : SubtaskKey) (payload : List ℕ) (c : Coordinator Disk)
      → let st = state_for c id in
        let o = write id key payload c.disk in
        let st' = acknowledged S key st in
        let c' = with_disk (mention c id) o.1 in
        (contains c.expected key ≡ false → P (some (unknown_subtask key), c))
        → (st.abandoned ≡ true → P (none, mention c id))
        → (st.abandoned ≡ false
            → (st.complete || contains st.acked key) ≡ true
            → P (some (duplicate_ack id key), mention c id))
        → ((e : StorageError)
            → st.abandoned ≡ false
            → st.complete ≡ false
            → P (some (storage_error e), abandon id st c'))
        → (o.0 ≡ none
            → st.abandoned ≡ false
            → st.complete ≡ false
            → contains c.expected key ≡ true
            → 0 < outstanding c' st'
            → P (none, set_state id st' c'))
        → (o.0 ≡ none
            → st.abandoned ≡ false
            → st.complete ≡ false
            → contains c.expected key ≡ true
            → outstanding c' st' ≡ 0
            → P (complete S id st' (set_state id st' c')))
        → P (acknowledge S id key payload c)
  unfolding acknowledge
  acknowledge_cases id key payload c unknown ignored again failed counted last =
      elim (Bool-cases (contains c.expected key)) [
        | inr e ↦ rw e (unknown e)
        | inl known ↦ elim (Bool-cases (state_for c id).abandoned) [
          | inl e ↦ rw (known, e) (ignored e)
          | inr live ↦
              elim (Bool-cases ((state_for c id).complete || contains (state_for c id).acked key)) [
                | inl e ↦ rw (known, live, e) (again live e)
                | inr e ↦
                    let nc : (state_for c id).complete ≡ false = ground arith in
                    rw (known, live, e)
                      (after_write_cases id key (state_for c id) (mention c id) _
                        (λ x _. failed x live nc)
                        (λ stored.
                          count_ack_cases id key (state_for c id) _ (counted stored live nc known)
                            (last stored live nc known)))
              ]
        ]
      ]

  pub finish_one_cases :
      (id : ℤ) (c : Coordinator Disk)
      → (terminal (state_for c id) ≡ true → P (none, c))
      → (0 < outstanding c (state_for c id) → P (none, c))
      → (terminal (state_for c id) ≡ false
          → outstanding c (state_for c id) ≡ 0
          → P (complete S id (state_for c id) c))
      → P (finish_one S id c)
  unfolding finish_one
  finish_one_cases id c over wait last = elim (Bool-cases (terminal (state_for c id))) [
    | inl e ↦ rw e (over e)
    | inr e ↦ elim (Bool-cases (ltb 0 (outstanding c (state_for c id)))) [
      | inl w ↦ rw (e, w) (wait (ground arith))
      | inr w ↦ rw (e, w) (last e (ground arith))
    ]
  ]

  pub finished_cases :
      (key : SubtaskKey) (payload : List ℕ) (c : Coordinator Disk)
      → P (some (unknown_subtask key), c)
      → P (some (duplicate_finish key), c)
      → (contains c.expected key ≡ true
          → is_done c.done key ≡ false
          → P (finish_all S c.ids (record c { done = (key, payload) ∷ c.done })))
      → P (finished S key payload c)
  unfolding finished
  finished_cases key payload c unknown again go = elim (Bool-cases (contains c.expected key)) [
    | inr e ↦ rw e unknown
    | inl known ↦ elim (Bool-cases (is_done c.done key)) [
      | inl e ↦ rw (known, e) again
      | inr e ↦ rw (known, e) (go known e)
    ]
  ]

-- A property of the coordinator that every turn of the loop of `Finished` keeps holds after it.
pub finish_all-keeps {ℓ} :
    (S : Storage) (P : Coordinator S.Disk → Type ℓ)
    → ((id : ℤ) (c : Coordinator S.Disk) → P c → P (finish_one S id c).1)
    → (ids : List ℤ) (c : Coordinator S.Disk) → P c
    → P (finish_all S ids c).1
unfolding finish_all
finish_all-keeps S P keep [] c h = h
finish_all-keeps S P keep (id ∷ ids) c h = elim (Option-cases (finish_one S id c).0) [
  | inl e ↦ rw (e, finish_all) (finish_all-keeps S P keep ids (finish_one S id c).1 (keep id c h))
  | inr (x, e) ↦ rw (e, finish_all) (keep id c h)
]
