-- ===== src/Checkpoint/Coordinator/Durable.antt =====
-- pkg/checkpoint/coordinator.go: a checkpoint counts as complete only when everything it consists of
-- is on the disk.
use tidemark.Prelude.{
  ℕ, ◌≡◌, subst, ℤ, true, none, List, [], ◌∷◌, Bool-cases, Option-cases, inl, inr, arith,
}
use tidemark.Checkpoint.Keys.{SubtaskKey, key_eq, key_eq_iff, contains, Metadata}
use tidemark.Checkpoint.Coordinator.{
  Storage, Coordinator, write_missing, acknowledge, finished, fail, payload_of,
}

-- A call of one of the three methods that change a coordinator.
pub data Call : Type 0 where
  acks : ℤ → SubtaskKey → List ℕ → Call
  finishes : SubtaskKey → List ℕ → Call
  fails : ℤ → Call

module _ (S : Storage) where
  open S use {
    Disk, HasState, IsMarked, write, write_stores, write_keeps, write_marks, complete_keeps,
    complete_marks, complete_still, complete as write_marker,
  }

  unfoldable pub step : Coordinator Disk → Call → Coordinator Disk
  step c (acks id key payload) = (acknowledge S id key payload c).1
  step c (finishes key payload) = (finished S key payload c).1
  step c (fails id) = fail S id c

  unfoldable pub run : Coordinator Disk → List Call → Coordinator Disk
  run c [] = c
  run c (x ∷ xs) = run (step c x) xs

  pub run-keeps {ℓ} :
      (P : Coordinator Disk → Type ℓ)
      → ((c : Coordinator Disk) (x : Call) → P c → P (step c x))
      → (c : Coordinator Disk) (xs : List Call) → P c
      → P (run c xs)
  unfolding run
  run-keeps P keep c [] h = h
  run-keeps P keep c (x ∷ xs) h = run-keeps P keep (step c x) xs (keep c x h)

  -- Nothing that the first disk holds is gone from the second.
  pub record Grows (d d' : Disk) : Type 0 where
    pub stored : (i : ℤ) (k : SubtaskKey) → HasState d i k → HasState d' i k
    pub marked : (i : ℤ) → IsMarked d i → IsMarked d' i

  pub Grows-refl : (d : Disk) → Grows d d
  Grows-refl d = record { stored = λ i k h. h; marked = λ i h. h }

  pub Grows-trans : {d d' d'' : Disk} → Grows d d' → Grows d' d'' → Grows d d''
  Grows-trans g h = record {
    stored = λ i k s. h.stored i k (g.stored i k s);
    marked = λ i m. h.marked i (g.marked i m);
  }

  pub write-Grows : (id : ℤ) (k : SubtaskKey) (p : List ℕ) (d : Disk) → Grows d (write id k p d).1
  write-Grows id k p d = record {
    stored = write_keeps id k p d;
    marked = λ i. (write_marks id k p d i).0;
  }

  pub marker-Grows : (id : ℤ) (m : Metadata) (d : Disk) → Grows d (write_marker id m d).1
  marker-Grows id m d = record { stored = complete_keeps id m d; marked = complete_still id m d }

  pub write_missing-Grows :
      (ks : List SubtaskKey) (id : ℤ) (acked : List SubtaskKey) (done : List (SubtaskKey × List ℕ))
      (d : Disk)
      → Grows d (write_missing S ks id acked done d).1
  unfolding write_missing
  write_missing-Grows [] id acked done d = Grows-refl d
  write_missing-Grows (k ∷ ks) id acked done d = elim (Bool-cases (contains acked k)) [
    | inl e ↦ rw e (write_missing-Grows ks id acked done d)
    | inr e ↦
        let p = payload_of done k in
        elim (Option-cases (write id k p d).0) [
          | inl ok ↦
              rw (e, ok)
                (Grows-trans (write-Grows id k p d)
                  (write_missing-Grows ks id acked done (write id k p d).1))
          | inr (x, bad) ↦ rw (e, bad) (write-Grows id k p d)
        ]
  ]

  -- If none of its writes fails, the loop of `complete` leaves a state for every key it was given,
  -- if those that acknowledged have theirs.
  pub write_missing-stores :
      (ks : List SubtaskKey) (id : ℤ) (acked : List SubtaskKey) (done : List (SubtaskKey × List ℕ))
      (d : Disk)
      → (write_missing S ks id acked done d).0 ≡ none
      → ((k : SubtaskKey) → contains acked k ≡ true → HasState d id k)
      → (k : SubtaskKey) → contains ks k ≡ true
      → HasState (write_missing S ks id acked done d).1 id k
  unfolding write_missing contains
  write_missing-stores [] id acked done d ok h k m = absurd (ground arith)
  write_missing-stores (j ∷ ks) id acked done d ok h k m = elim (Bool-cases (contains acked j)) [
    | inl e ↦
        let rest = write_missing-stores ks id acked done d (rw e at ok) h k in
        rw e (elim (Bool-cases (key_eq j k)) [
          | inl same ↦
              (write_missing-Grows ks id acked done d).stored id k
                (h k (subst (λ x. contains acked x ≡ true) ((key_eq_iff j k).0 same) e))
          | inr other ↦ rest (ground arith)
        ])
    | inr e ↦
        let p = payload_of done j in
        let d' = (write id j p d).1 in
        let kept : (x : SubtaskKey) → contains acked x ≡ true → HasState d' id x =
          λ x a. write_keeps id j p d id x (h x a) in
        elim (Option-cases (write id j p d).0) [
          | inl good ↦
              let rest = write_missing-stores ks id acked done d' (rw (e, good) at ok) kept k in
              rw (e, good)
                (elim (Bool-cases (key_eq j k)) [
                  | inl same ↦ (write_missing-Grows ks id acked done d').stored id k (
                      subst (HasState d' id) ((key_eq_iff j k).0 same) (write_stores id j p d good))
                  | inr other ↦ rest (ground arith)
                ])
          | inr (x, bad) ↦ absurd (ground arith)
        ]
  ]
