-- ===== src/Checkpoint/Coordinator.antt =====
-- pkg/checkpoint/coordinator.go: which checkpoints are complete. Each method holds the mutex from its
-- first line to its last, so calls are whole steps in some order. A Go map is a function of its key;
-- Go visits a map in any order: here `state` is visited in the order of `ids`, the last mentioned
-- first, and `expected` in that of the metadata. What the coordinator asks of its storage is the
-- record `Storage`.
pub mod Cases
pub mod Durable
pub mod Finality
pub mod Invariant
use tidemark.Prelude.{
  ℕ, zero, suc, ◌+◌, ◌<◌, ◌≡◌, ◌↔◌, ℤ, eqb_ℤ, update_at, Bool, true, false, ◌&&◌, ◌||◌, not, Option,
  none, some, List, [], ◌∷◌, ◌++◌, length, ltb, if◌then◌else◌,
}
use tidemark.Checkpoint.Keys.{SubtaskKey, key_eq, contains, Metadata, subtasks}

-- What the coordinator relies on: a state that was written, or a marker, stays, and a write or a
-- completion that reports no error has taken effect.
pub record Storage : Type 1 where
  pub Disk : Type 0
  pub StorageError : Type 0
  pub write : ℤ → SubtaskKey → List ℕ → Disk → Option StorageError × Disk
  pub complete : ℤ → Metadata → Disk → Option StorageError × Disk
  pub HasState : Disk → ℤ → SubtaskKey → Type 0
  pub IsMarked : Disk → ℤ → Type 0
  pub write_stores :
      (id : ℤ) (k : SubtaskKey) (p : List ℕ) (d : Disk)
      → (write id k p d).0 ≡ none
      → HasState (write id k p d).1 id k
  pub write_keeps :
      (id : ℤ) (k : SubtaskKey) (p : List ℕ) (d : Disk) (i : ℤ) (j : SubtaskKey)
      → HasState d i j
      → HasState (write id k p d).1 i j
  pub write_marks :
      (id : ℤ) (k : SubtaskKey) (p : List ℕ) (d : Disk) (i : ℤ)
      → IsMarked d i ↔ IsMarked (write id k p d).1 i
  pub complete_keeps :
      (id : ℤ) (m : Metadata) (d : Disk) (i : ℤ) (j : SubtaskKey)
      → HasState d i j
      → HasState (complete id m d).1 i j
  pub complete_marks :
      (id : ℤ) (m : Metadata) (d : Disk)
      → (complete id m d).0 ≡ none
      → IsMarked (complete id m d).1 id
  pub complete_still :
      (id : ℤ) (m : Metadata) (d : Disk) (i : ℤ) → IsMarked d i → IsMarked (complete id m d).1 i

pub record CheckpointState : Type 0 where
  pub acked : List SubtaskKey
  pub complete : Bool
  pub abandoned : Bool

abbrev pub terminal : CheckpointState → Bool
terminal st = st.complete || st.abandoned

pub data CoordinatorError (E : Type 0) : Type 0 where
  unknown_subtask : SubtaskKey → CoordinatorError E
  duplicate_ack : ℤ → SubtaskKey → CoordinatorError E
  duplicate_finish : SubtaskKey → CoordinatorError E
  storage_error : E → CoordinatorError E

-- `announced` counts the channels that `announce` has closed.
pub record Coordinator (D : Type 0) : Type 0 where
  pub disk : D
  pub meta : Metadata
  pub expected : List SubtaskKey
  pub state : ℤ → Option CheckpointState
  pub ids : List ℤ
  pub done : List (SubtaskKey × List ℕ)
  pub announced : ℕ

-- The keys of the map that `NewCoordinator` builds: each once.
distinct : List SubtaskKey → List SubtaskKey
distinct [] = []
distinct (k ∷ ks) = let rest = distinct ks in if contains rest k then rest else k ∷ rest

unfoldable pub new_coordinator : {D : Type 0} → D → Metadata → Coordinator D
unfolding distinct
new_coordinator d m = record {
  disk = d;
  meta = m;
  expected = distinct (subtasks m.vertices);
  state = λ _. none;
  ids = [];
  done = [];
  announced = 0;
}

abbrev pub fresh : CheckpointState
fresh = record { acked = []; complete = false; abandoned = false }

-- `c.done[key]`: whether it is there, and the payload, which is empty for a missing key.
unfoldable pub is_done : List (SubtaskKey × List ℕ) → SubtaskKey → Bool
is_done [] k = false
is_done ((j, p) ∷ rest) k = key_eq j k || is_done rest k

unfoldable pub payload_of : List (SubtaskKey × List ℕ) → SubtaskKey → List ℕ
payload_of [] k = []
payload_of ((j, p) ∷ rest) k = if key_eq j k then p else payload_of rest k

-- The loop of `outstanding`.
unfoldable pub count_outstanding :
    List SubtaskKey → List SubtaskKey → List (SubtaskKey × List ℕ) → ℕ
count_outstanding [] acked done = 0
count_outstanding (k ∷ ks) acked done =
    let n = count_outstanding ks acked done in
    if contains acked k then n else if is_done done k then n else suc n

abbrev pub state_or_fresh : Option CheckpointState → CheckpointState
state_or_fresh none = fresh
state_or_fresh (some st) = st

abbrev pub ids_with : Option CheckpointState → ℤ → List ℤ → List ℤ
ids_with none id ids = id ∷ ids
ids_with (some st) id ids = ids

module _ {D : Type 0} where
  abbrev pub outstanding : Coordinator D → CheckpointState → ℕ
  outstanding c st = count_outstanding c.expected st.acked c.done

  abbrev pub set_state : ℤ → CheckpointState → Coordinator D → Coordinator D
  set_state id st c = record c { state = update_at c.state id (some st) }

  -- `stateFor`: the record of a checkpoint, made on first mention.
  abbrev pub state_for : Coordinator D → ℤ → CheckpointState
  state_for c id = state_or_fresh (c.state id)

  unfoldable pub mention : Coordinator D → ℤ → Coordinator D
  mention c id = record c {
    state = update_at c.state id (some (state_for c id));
    ids = ids_with (c.state id) id c.ids;
  }

  abbrev pub announce : Coordinator D → Coordinator D
  announce c = record c { announced = c.announced + 1 }

  unfoldable pub abandon : ℤ → CheckpointState → Coordinator D → Coordinator D
  abandon id st c = announce (set_state id (record st { abandoned = true; acked = [] }) c)

  unfoldable pub mark_complete : ℤ → CheckpointState → Coordinator D → Coordinator D
  mark_complete id st c = announce (set_state id (record st { complete = true; acked = [] }) c)

  abbrev pub with_disk : Coordinator D → D → Coordinator D
  with_disk c d = record c { disk = d }

module _ (S : Storage) where
  open S use {Disk, StorageError, write, complete as write_marker}

  abbrev pub Outcome : Type 0
  Outcome = Option (CoordinatorError StorageError) × Coordinator Disk

  -- The loop of `complete`: the payloads of finished subtasks that have not acknowledged.
  unfoldable pub write_missing :
      List SubtaskKey
      → ℤ
      → List SubtaskKey
      → List (SubtaskKey × List ℕ)
      → Disk
      → Option StorageError × Disk
  write_missing [] id acked done d = (none, d)
  write_missing (k ∷ ks) id acked done d =
      if contains acked k
      then write_missing ks id acked done d
      else elim (write id k (payload_of done k) d).0 [
        | none ↦ write_missing ks id acked done (write id k (payload_of done k) d).1
        | some e ↦ (some e, (write id k (payload_of done k) d).1)
      ]

  after_marker : ℤ → CheckpointState → Coordinator Disk → Option StorageError × Disk → Outcome
  after_marker id st c (some e, d) = (some (storage_error e), abandon id st (with_disk c d))
  after_marker id st c (none, d) = (none, mark_complete id st (with_disk c d))

  after_missing : ℤ → CheckpointState → Coordinator Disk → Option StorageError × Disk → Outcome
  unfolding after_marker
  after_missing id st c (some e, d) = (some (storage_error e), abandon id st (with_disk c d))
  after_missing id st c (none, d) = after_marker id st c (write_marker id c.meta d)

  unfoldable pub complete : ℤ → CheckpointState → Coordinator Disk → Outcome
  unfolding after_missing
  complete id st c = after_missing id st c (write_missing c.expected id st.acked c.done c.disk)

  -- The end of `Acknowledge`, with the subtask's state on the disk.
  abbrev pub acknowledged : SubtaskKey → CheckpointState → CheckpointState
  acknowledged key st = record st { acked = key ∷ st.acked }

  count_ack : ℤ → SubtaskKey → CheckpointState → Coordinator Disk → Outcome
  count_ack id key st c =
      if ltb 0 (outstanding c (acknowledged key st))
      then (none, set_state id (acknowledged key st) c)
      else complete id (acknowledged key st) (set_state id (acknowledged key st) c)

  after_write :
      ℤ → SubtaskKey → CheckpointState → Coordinator Disk → Option StorageError × Disk → Outcome
  unfolding count_ack
  after_write id key st c (some e, d) = (some (storage_error e), abandon id st (with_disk c d))
  after_write id key st c (none, d) = count_ack id key st (with_disk c d)

  unfoldable pub acknowledge : ℤ → SubtaskKey → List ℕ → Coordinator Disk → Outcome
  unfolding after_write
  acknowledge id key payload c =
      if not (contains c.expected key)
      then (some (unknown_subtask key), c)
      else if (state_for c id).abandoned
      then (none, mention c id)
      else if (state_for c id).complete || contains (state_for c id).acked key
      then (some (duplicate_ack id key), mention c id)
      else after_write id key (state_for c id) (mention c id) (write id key payload c.disk)

  -- One turn of the loop of `Finished`.
  unfoldable pub finish_one : ℤ → Coordinator Disk → Outcome
  finish_one id c =
      if terminal (state_for c id)
      then (none, c)
      else if ltb 0 (outstanding c (state_for c id))
      then (none, c)
      else complete id (state_for c id) c

  unfoldable pub finish_all : List ℤ → Coordinator Disk → Outcome
  unfolding finish_one
  finish_all [] c = (none, c)
  finish_all (id ∷ ids) c = elim (finish_one id c).0 [
    | none ↦ finish_all ids (finish_one id c).1
    | some e ↦ (some e, (finish_one id c).1)
  ]

  unfoldable pub finished : SubtaskKey → List ℕ → Coordinator Disk → Outcome
  unfolding finish_all
  finished key payload c =
      if not (contains c.expected key)
      then (some (unknown_subtask key), c)
      else if is_done c.done key
      then (some (duplicate_finish key), c)
      else finish_all c.ids (record c { done = (key, payload) ∷ c.done })

  unfoldable pub fail : ℤ → Coordinator Disk → Coordinator Disk
  fail id c =
      if (state_for c id).complete then mention c id else abandon id (state_for c id) (mention c id)

completed_state : Option CheckpointState → Bool
completed_state none = false
completed_state (some st) = st.complete

abandoned_state : Option CheckpointState → Bool
abandoned_state none = false
abandoned_state (some st) = st.abandoned

settled_state : Option CheckpointState → Bool
settled_state none = false
settled_state (some st) = terminal st

module _ {D : Type 0} where
  unfoldable pub is_completed : Coordinator D → ℤ → Bool
  unfolding completed_state
  is_completed c id = completed_state (c.state id)

  unfoldable pub is_abandoned : Coordinator D → ℤ → Bool
  unfolding abandoned_state
  is_abandoned c id = abandoned_state (c.state id)

  -- `CompletedAmong`, in the order given.
  unfoldable pub completed_among : Coordinator D → List ℤ → List ℤ
  completed_among c [] = []
  completed_among c (id ∷ ids) =
      let rest = completed_among c ids in if is_completed c id then id ∷ rest else rest

  unfoldable pub settled : Coordinator D → List ℤ → Bool
  unfolding settled_state
  settled c [] = true
  settled c (id ∷ ids) = settled_state (c.state id) && settled c ids

-- What wakes a waiter: a closed `changed` channel, or its context.
pub data Wake (D : Type 0) : Type 0 where
  changed : Coordinator D → Wake D
  cancelled : Coordinator D → Wake D

-- `AwaitCompletedAmong` from the state `c` on; `none` while it still waits.
unfoldable pub await_completed_among :
    {D : Type 0} → List ℤ → Coordinator D → List (Wake D) → Option (List ℤ)
await_completed_among ids c [] = if settled c ids then some (completed_among c ids) else none
await_completed_among ids c (changed c' ∷ ws) = elim (settled c ids) [
  | true ↦ some (completed_among c ids)
  | false ↦ await_completed_among ids c' ws
]
await_completed_among ids c (cancelled c' ∷ ws) =
    some (if settled c ids then completed_among c ids else completed_among c' ids)
