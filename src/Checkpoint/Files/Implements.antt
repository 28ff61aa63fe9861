-- ===== src/Checkpoint/Files/Implements.antt =====
-- pkg/checkpoint/storage.go: `WriteSubtaskState` and `Complete` are the operations that the coordinator
-- wants of its storage.
use tidemark.Prelude.{
  ℕ, ◌≡◌, ◌≢◌, ◌↔◌, ◌⊎◌, refl, sym, ◌∙◌, subst, ℤ, true, none, some, List, arith, inl, inr,
  if_cases, Option-cases,
}
use tidemark.Checkpoint.Keys.{SubtaskKey, Metadata, contains, subtasks}
use tidemark.Checkpoint.Codec.{encode_subtask_state, encode_metadata}
use tidemark.Checkpoint.Coordinator.{Storage, new_coordinator, is_completed}
use tidemark.Checkpoint.Coordinator.Durable.{Call, run}
use tidemark.Checkpoint.Coordinator.Invariant.{run-durable}
use tidemark.Checkpoint.Files.{
  metadata_name, complete_name, state_file, temp, FilePath, path, mkdir_all, sync_dir, FileSystem,
  Outcome, and_then, wrap_error, StorageError, write_file_synced, write_subtask_state, complete,
  marker, is_bad_vertex_id, bad_vertex_id,
}
use tidemark.Checkpoint.Files.Laws.{IsFaithful, Wrote, write_file_synced-Wrote, and_then_plain}
use tidemark.Checkpoint.Files.Store.{
  wrap_none, wrap_disk, paths_cases, kinds_apart, HasState, IsMarked, Keeps, Keeps-trans,
  same-Keeps, metadata-Keeps, mkdir_same, sync_same, Completes, failed-Completes, mark-Completes,
}

module _ (F : FileSystem) (law : IsFaithful F) where
  open F use {Disk, FsError, perform, read_file}

  files-Completes :
      (id : ℤ) (m : Metadata) (d : Disk)
      → Completes F law id m d (
          and_then (perform (mkdir_all id) d) λ d1.
            and_then (write_file_synced F id metadata_name (encode_metadata m) d1) λ d2.
              and_then (perform (sync_dir id) d2) λ d3.
                and_then
                  (write_file_synced F id complete_name (marker id) d3)
                  (perform (sync_dir id)))
  files-Completes id m d =
      let P = Completes F law id m d in
      let d1 = (perform (mkdir_all id) d).1 in
      let o = write_file_synced F id metadata_name (encode_metadata m) d1 in
      let w = write_file_synced-Wrote F law id metadata_name (encode_metadata m) d1 in
      let d3 = (perform (sync_dir id) o.1).1 in
      let k1 = same-Keeps F law d d1 (mkdir_same F law id d) in
      let k2 = Keeps-trans F law d d1 o.1 k1 (metadata-Keeps F law id (encode_metadata m) d1 o w) in
      let k3 = Keeps-trans F law d o.1 d3 k2 (same-Keeps F law o.1 d3 (sync_same F law id o.1)) in
      and_then_plain P (perform (mkdir_all id) d) _
        (λ n1.
          and_then_plain P o _
            (λ n2.
              and_then_plain P (perform (sync_dir id) o.1) _
                (λ n3.
                  mark-Completes F law id m d d3 k3
                    (sync_same F law id o.1 (path id metadata_name) ∙ w.there n2))
                (λ e. failed-Completes F law id m d d3 e k3))
            (λ e. failed-Completes F law id m d o.1 e k2))
        (λ e. failed-Completes F law id m d d1 e k1)

  -- What Complete has done, by how it ended: nothing that counts is gone, and without an error the marker
  -- and the metadata are there.
  pub complete-Keeps : (id : ℤ) (m : Metadata) (d : Disk) → Keeps F law d (complete F id m d).1
  unfolding complete
  complete-Keeps id m d = subst (Keeps F law d) (sym (wrap_disk _)) (files-Completes id m d).keeps

  pub complete-marks :
      (id : ℤ) (m : Metadata) (d : Disk)
      → (complete F id m d).0 ≡ none
      → IsMarked F law (complete F id m d).1 id
        × (read_file (complete F id m d).1 (path id metadata_name) ≡ some (encode_metadata m))
  unfolding complete
  complete-marks id m d n =
      let c = files-Completes id m d in
      let ok = wrap_none _ n in
      (
        subst (λ x. IsMarked F law x id) (sym (wrap_disk _)) (c.marked ok),
        subst (λ x. read_file x (path id metadata_name) ≡ some (encode_metadata m))
            (sym (wrap_disk _)) (c.described ok),
      )

  -- What writing a state file has done: without an error it is there, with one it is what it was, and
  -- nothing else that counts has changed.
  record Stores {E : Type 0} (id : ℤ) (key : SubtaskKey) (payload : List ℕ) (d : Disk)
      (o : Outcome E Disk) : Type 0 where
    own :
        o.0 ≡ none
        → read_file o.1 (path id (state_file key)) ≡ some (encode_subtask_state id key payload)
    own_before :
        o.0 ≢ none
        → read_file o.1 (path id (state_file key)) ≡ read_file d (path id (state_file key))
    others :
        (i : ℤ) (j : SubtaskKey)
        → path id (state_file key) ≢ path i (state_file j)
        → read_file o.1 (path i (state_file j)) ≡ read_file d (path i (state_file j))
    marks : (i : ℤ) → read_file o.1 (path i complete_name) ≡ read_file d (path i complete_name)

  failed-Stores :
      {E : Type 0} (id : ℤ) (key : SubtaskKey) (payload : List ℕ) (d d' : Disk) (e : E)
      → ((q : FilePath) → read_file d' q ≡ read_file d q)
      → Stores id key payload d (some e, d')
  failed-Stores id key payload d d' e h = record {
    own = λ n. absurd (cc);
    own_before = λ _. h (path id (state_file key));
    others = λ i j _. h (path i (state_file j));
    marks = λ i. h (path i complete_name);
  }

  wrap-Stores :
      (id : ℤ) (key : SubtaskKey) (payload : List ℕ) (d : Disk) (o : Outcome FsError Disk)
      → Stores id key payload d o
      → Stores id key payload d (wrap_error o)
  wrap-Stores id key payload d (none, d') s = record {
    own = λ _. s.own refl;
    own_before = λ n. absurd (n refl);
    others = s.others;
    marks = s.marks;
  }
  wrap-Stores id key payload d (some e, d') s = record {
    own = λ n. absurd (cc);
    own_before = λ n. s.own_before (λ n. cc);
    others = s.others;
    marks = s.marks;
  }

  Wrote-Stores :
      (id : ℤ) (key : SubtaskKey) (payload : List ℕ) (d d1 : Disk) (o : Outcome FsError Disk)
      → ((q : FilePath) → read_file d1 q ≡ read_file d q)
      → Wrote F law id (state_file key) (encode_subtask_state id key payload) d1 o
      → Stores id key payload d o
  Wrote-Stores id key payload d d1 o h w =
      let apart = λ (i : ℤ) (j : SubtaskKey).
        kinds_apart (temp (state_file key)) (state_file j) id i (omega arith) in
      record {
        own = w.there;
        own_before = λ n. w.as_before n ∙ h (path id (state_file key));
        others =
            λ i j ne. w.others (path i (state_file j)) ne (apart i j) ∙ h (path i (state_file j));
        marks = λ i.
            w.others (path i complete_name)
              (kinds_apart (state_file key) complete_name id i (omega arith))
              (kinds_apart (temp (state_file key)) complete_name id i (omega arith))
            ∙ h (path i complete_name);
      }

  write-Stores :
      (id : ℤ) (key : SubtaskKey) (payload : List ℕ) (d : Disk)
      → Stores id key payload d (write_subtask_state F id key payload d)
  unfolding write_subtask_state
  write-Stores id key payload d =
      let bytes = encode_subtask_state id key payload in
      let d1 = (perform (mkdir_all id) d).1 in
      let same = mkdir_same F law id d in
      if_cases (Stores id key payload d) (is_bad_vertex_id key.vertex_id) _ _
        (λ _. failed-Stores id key payload d d (bad_vertex_id key.vertex_id) (λ q. refl))
        (λ _. wrap-Stores id key payload d _ (
          and_then_plain (Stores id key payload d) (perform (mkdir_all id) d) _
            (λ _.
              Wrote-Stores id key payload d d1 _ same
                (write_file_synced-Wrote F law id (state_file key) bytes d1))
            (λ e. failed-Stores id key payload d d1 e same)))

  pub write-stores :
      (id : ℤ) (k : SubtaskKey) (payload : List ℕ) (d : Disk)
      → (write_subtask_state F id k payload d).0 ≡ none
      → HasState F law (write_subtask_state F id k payload d).1 id k
  unfolding HasState
  write-stores id k payload d n = (payload, (write-Stores id k payload d).own n)

  own_state :
      {E : Type 0} {id : ℤ} {k : SubtaskKey} {payload : List ℕ} {d : Disk} {o : Outcome E Disk}
      → (o.0 ≡ none) ⊎ ((e : E) × (o.0 ≡ some e))
      → Stores id k payload d o
      → HasState F law d id k
      → HasState F law o.1 id k
  unfolding HasState
  own_state {payload = payload} (inl n) s h = (payload, s.own n)
  own_state (inr (x, e)) s (q, h) = (q, s.own_before (λ n. cc) ∙ h)

  pub write-keeps :
      (id : ℤ) (k : SubtaskKey) (payload : List ℕ) (d : Disk) (i : ℤ) (j : SubtaskKey)
      → HasState F law d i j
      → HasState F law (write_subtask_state F id k payload d).1 i j
  unfolding HasState
  write-keeps id k payload d i j (q, h) =
      let s = write-Stores id k payload d in
      let o = write_subtask_state F id k payload d in
      elim (paths_cases id i k j) [
        | inl ne ↦ (q, s.others i j ne ∙ h)
        | inr (ei, ej) ↦
            subst (λ x. HasState F law o.1 x j) ei
              (subst (λ y. HasState F law o.1 id y) ej
                (own_state (Option-cases o.0) s (
                  subst (λ y. HasState F law d id y) (sym ej)
                    (subst (λ x. HasState F law d x j) (sym ei) (q, h)))))
      ]

  pub write-marks :
      (id : ℤ) (k : SubtaskKey) (payload : List ℕ) (d : Disk) (i : ℤ)
      → IsMarked F law d i ↔ IsMarked F law (write_subtask_state F id k payload d).1 i
  unfolding IsMarked
  write-marks id k payload d i =
      let e = (write-Stores id k payload d).marks i in (λ h. e ∙ h, λ h. sym e ∙ h)

  pub complete-states :
      (id : ℤ) (m : Metadata) (d : Disk) (i : ℤ) (j : SubtaskKey)
      → HasState F law d i j
      → HasState F law (complete F id m d).1 i j
  unfolding HasState
  complete-states id m d i j (q, h) = (q, (complete-Keeps id m d).states i j ∙ h)

-- Storage, on a file system, as the coordinator uses it.
abbrev pub file_storage : (F : FileSystem) → IsFaithful F → Storage
file_storage F law = record {
  Disk = F.Disk;
  StorageError = StorageError F.FsError;
  write = write_subtask_state F;
  complete = complete F;
  HasState = HasState F law;
  IsMarked = IsMarked F law;
  write_stores = write-stores F law;
  write_keeps = write-keeps F law;
  write_marks = write-marks F law;
  complete_keeps = λ id m d i j h. complete-states F law id m d i j h;
  complete_marks = λ id m d n. (complete-marks F law id m d n).0;
  complete_still = λ id m d i h. (complete-Keeps F law id m d).marks i h;
}

-- After any calls on a new coordinator whose storage is on the file system, whichever of its calls fail:
-- a checkpoint that Completed reports has its marker on the disk and, for every subtask of the job, a
-- state file that is the encoding of some payload for that checkpoint and that subtask.
pub run_files-durable :
    (F : FileSystem) (law : IsFaithful F) (d : F.Disk) (m : Metadata) (xs : List Call) (id : ℤ)
    → let S = file_storage F law in
      let c = run S (new_coordinator d m) xs in
      is_completed c id ≡ true
      → (F.read_file c.disk (path id complete_name) ≡ some (marker id))
        × ((k : SubtaskKey)
            → contains (subtasks m.vertices) k ≡ true
            → (payload : List ℕ) × (F.read_file c.disk (path id (state_file k))
                ≡ some (encode_subtask_state id k payload)))
unfolding HasState IsMarked
run_files-durable F law d m xs id h =
    let (marked, stored, _) = run-durable (file_storage F law) d m xs id h in (marked, stored)
