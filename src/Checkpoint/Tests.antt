-- ===== src/Checkpoint/Tests.antt =====
-- pkg/checkpoint: a job of two subtasks, one of which finishes before it has acknowledged.
use tidemark.Prelude.{
  ℕ, ◌≡◌, refl, ◌↔◌, ℤ, pos, eqb_ℤ, eqb_ℤ_iff, Bool, true, false, ◌&&◌, ◌||◌, Option, none, some,
  List, [], ◌∷◌, String, arith,
}
use tidemark.Checkpoint.Keys.{
  SubtaskKey, key_eq, key_eq_iff, contains, Metadata, subtasks, check_against, check_against_lem,
}
use tidemark.Checkpoint.Coordinator.{
  Storage, Coordinator, new_coordinator, is_completed, is_abandoned, acknowledge, finished, fail,
  mention, finish_all, finish_one, complete, write_missing, mark_complete, abandon, is_done,
  payload_of, count_outstanding, state_for,
}
use tidemark.Checkpoint.Coordinator.Durable.{Call, acks, finishes, fails, step, run}
use tidemark.Checkpoint.Coordinator.Invariant.{run-durable}
use tidemark.Checkpoint.Coordinator.Finality.{run-final}

-- A disk that refuses an empty payload.
record Stored : Type 0 where
  states : ℤ → SubtaskKey → Bool
  markers : ℤ → Bool

abbrev put : ℤ → SubtaskKey → Stored → Stored
put id k d = record d { states = λ i j. (eqb_ℤ id i && key_eq k j) || d.states i j }

abbrev mark : ℤ → Stored → Stored
mark id d = record d { markers = λ i. eqb_ℤ id i || d.markers i }

abbrev put_payload : ℤ → SubtaskKey → List ℕ → Stored → Option ℕ × Stored
put_payload id k [] d = (some 0, d)
put_payload id k (b ∷ bs) d = (none, put id k d)

put_payload-stores :
    (id : ℤ) (k : SubtaskKey) (p : List ℕ) (d : Stored)
    → (put_payload id k p d).0 ≡ none
    → (put_payload id k p d).1.states id k ≡ true
put_payload-stores id k [] d e = absurd (ground arith)
put_payload-stores id k (b ∷ bs) d e = rw ((eqb_ℤ_iff id id).1 refl, (key_eq_iff k k).1 refl) refl

put_payload-keeps :
    (id : ℤ) (k : SubtaskKey) (p : List ℕ) (d : Stored) (i : ℤ) (j : SubtaskKey)
    → d.states i j ≡ true
    → (put_payload id k p d).1.states i j ≡ true
put_payload-keeps id k [] d i j e = e
put_payload-keeps id k (b ∷ bs) d i j e = ground (arith, e)

put_payload-marks :
    (id : ℤ) (k : SubtaskKey) (p : List ℕ) (d : Stored) (i : ℤ)
    → (d.markers i ≡ true) ↔ ((put_payload id k p d).1.markers i ≡ true)
put_payload-marks id k [] d i = (λ e. e, λ e. e)
put_payload-marks id k (b ∷ bs) d i = (λ e. e, λ e. e)

mark-still :
    (id : ℤ) (m : Metadata) (d : Stored) (i : ℤ) → d.markers i ≡ true → (mark id d).markers i ≡ true
mark-still id m d i e = ground (arith, e)

abbrev stored : Storage
stored = record {
  Disk = Stored;
  StorageError = ℕ;
  write = put_payload;
  complete = λ id m d. (none, mark id d);
  HasState = λ d id k. d.states id k ≡ true;
  IsMarked = λ d id. d.markers id ≡ true;
  write_stores = put_payload-stores;
  write_keeps = put_payload-keeps;
  write_marks = put_payload-marks;
  complete_keeps = λ id m d i j e. e;
  complete_marks = λ id m d e. rw ((eqb_ℤ_iff id id).1 refl) refl;
  complete_still = mark-still;
}

abbrev empty : Stored
empty = record { states = λ _ _. false; markers = λ _. false }

abbrev key : String → SubtaskKey
key id = record { vertex_id = id; index = 0 }

abbrev job : Metadata
job = record {
  vertices =
      record { id = "source"; parallelism = 1; count = pos 5 }
      ∷ record { id = "sink"; parallelism = 1; count = pos 0 }
      ∷ [];
  seed = 1;
}

-- Checkpoint 1 is completed by the end of the sink, and checkpoint 2 is abandoned.
abbrev calls : List Call
calls = acks (pos 1) (key "source") (7 ∷ []) ∷ fails (pos 2) ∷ finishes (key "sink") (8 ∷ []) ∷ []

abbrev called : Coordinator Stored
called = run stored (new_coordinator empty job) calls

called_completed : is_completed called (pos 1) ≡ true
unfolding run step new_coordinator subtasks key_eq acknowledge finished fail is_completed contains
    mention finish_all finish_one complete write_missing mark_complete abandon is_done payload_of
    count_outstanding
called_completed = refl

run-durable_example :
    (called.disk.markers (pos 1) ≡ true)
    × ((k : SubtaskKey)
        → contains (subtasks job.vertices) k ≡ true
        → called.disk.states (pos 1) k ≡ true)
    × (is_abandoned called (pos 1) ≡ false)
run-durable_example = run-durable stored empty job calls (pos 1) called_completed

called_over : (is_completed called (pos 2) || is_abandoned called (pos 2)) ≡ true
unfolding run step new_coordinator subtasks key_eq acknowledge finished fail is_completed
    is_abandoned contains mention finish_all finish_one complete write_missing mark_complete abandon
    is_done payload_of count_outstanding
called_over = refl

-- Late calls for the checkpoint that is abandoned.
abbrev late : List Call
late = fails (pos 2) ∷ acks (pos 2) (key "sink") (9 ∷ []) ∷ []

run-final_example :
    ((run stored called late).state (pos 2) ≡ called.state (pos 2))
    × (is_completed (run stored called late) (pos 2) ≡ is_completed called (pos 2))
    × (is_abandoned (run stored called late) (pos 2) ≡ is_abandoned called (pos 2))
    × ((state_for called (pos 2)).acked ≡ [])
run-final_example = run-final stored empty job calls late (pos 2) called_over

check_against_lem_example : (check_against job job ≡ none) ↔ (job.vertices ≡ job.vertices)
check_against_lem_example = check_against_lem job job
