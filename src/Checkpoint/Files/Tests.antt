-- ===== src/Checkpoint/Files/Tests.antt =====
-- pkg/checkpoint/storage.go: a file system in memory, and what the theorems say of it.
use tidemark.Prelude.{
  ℕ, ◌+◌, All, ◌∙◌, ◌≡◌, ◌≢◌, ◌↔◌, refl, ap, subst, ℤ, pos, eqb_ℤ, eqb_ℤ_iff, Bool, true, false,
  ◌&&◌, Option, none, some, List, [], ◌∷◌, ◌++◌, map, if◌then◌else◌, arith, inl, inr, Bool-cases,
}
use tidemark.Checkpoint.Keys.{
  SubtaskKey, Metadata, key_eq, key_eq_iff, contains, subtasks, keys_from,
}
use tidemark.Checkpoint.Framing.{bytes_of}
use tidemark.Checkpoint.Files.{
  FileName, metadata_name, complete_name, state_file, temp, FilePath, path, Op, mkdir_all, create,
  write, sync, close, rename, sync_dir, remove, FileSystem, complete, marker, write_subtask_state,
  is_bad_vertex_id, write_file_synced,
}
use tidemark.Checkpoint.Files.Store.{kind, key_of}
use tidemark.Checkpoint.Codec.RoundTrip.{FitsMetadata}
use tidemark.Checkpoint.Files.Load.{load, loaded, HasPayload, load-complete}
use tidemark.Checkpoint.Codec.{encode_subtask_state}
use tidemark.Checkpoint.Decimal.{format_int, parse_int}
use tidemark.Checkpoint.Coordinator.{
  Storage, new_coordinator, is_completed, acknowledge, mention, write_missing, mark_complete,
  is_done, payload_of, count_outstanding, complete as settle,
}
use tidemark.Checkpoint.Coordinator.Durable.{Call, acks, run, step}
use tidemark.Checkpoint.Files.Names.{render-injective}
use tidemark.Checkpoint.Files.Recording.{Log, before_marker, recorder, logged, puts_marker}
use tidemark.Checkpoint.Files.Order.{promised, file_calls, complete-order}
use tidemark.Checkpoint.Files.Implements.{file_storage, run_files-durable}
use tidemark.Checkpoint.Files.Latest.{
  IsExpected, plain_file, own, IsNewest, DirEntry, entries, latest, latest_is, Has, completed_dir,
  checkpoint_of, latest-IsNewest, scan, strip_prefix, dir_name,
}
use tidemark.Checkpoint.Files.Laws.{IsFaithful, Touches}

abbrev append_to : Option (List ℕ) → List ℕ → Option (List ℕ)
append_to none bs = some bs
append_to (some old) bs = some (old ++ bs)

abbrev inner : FileName → FileName
inner (temp n) = n
inner n = n

name_eq : FileName → FileName → Bool
name_eq (state_file k) (state_file j) = key_eq k j
name_eq metadata_name metadata_name = true
name_eq complete_name complete_name = true
name_eq (temp m) (temp n) = name_eq m n
name_eq _ _ = false

name_eq_iff : (a b : FileName) → (name_eq a b ≡ true) ↔ (a ≡ b)
unfolding name_eq
name_eq_iff (state_file k) (state_file j) =
    (λ h. ap state_file ((key_eq_iff k j).0 h), λ e. (key_eq_iff k j).1 (ap (λ n. key_of k n) e))
name_eq_iff metadata_name metadata_name = (λ _. refl, λ _. refl)
name_eq_iff complete_name complete_name = (λ _. refl, λ _. refl)
name_eq_iff (temp m) (temp n) =
    let (there, back) = name_eq_iff m n in (λ h. ap temp (there h), λ e. back (ap inner e))
name_eq_iff a b = (λ h. absurd (cc), λ e. absurd (omega (arith, ap kind e)))

path_eq : FilePath → FilePath → Bool
unfolding name_eq
path_eq a b = eqb_ℤ a.dir b.dir && name_eq a.name b.name

abbrev Memory : Type 0
Memory = FilePath → Option (List ℕ)

abbrev set_file : FilePath → Option (List ℕ) → Memory → Memory
set_file p c d q = if path_eq p q then c else d q

in_memory : Op → Memory → Memory
unfolding path_eq
in_memory (create p) d = set_file p (some []) d
in_memory (write p bs) d = set_file p (append_to (d p) bs) d
in_memory (rename a b) d = set_file b (d a) (set_file a none d)
in_memory (remove p) d = set_file p none d
in_memory (mkdir_all id) d = d
in_memory (sync p) d = d
in_memory (close p) d = d
in_memory (sync_dir id) d = d

abbrev memory : FileSystem
memory = record {
  Disk = Memory;
  FsError = ℕ;
  perform = λ op d. (none, in_memory op d);
  read_file = λ d p. d p;
}

path_eq_iff : (a b : FilePath) → (path_eq a b ≡ true) ↔ (a ≡ b)
unfolding path_eq
path_eq_iff a b = (
  λ h.
      let d : a.dir ≡ b.dir = (eqb_ℤ_iff a.dir b.dir).0 (ground (arith, h)) in
      let n : a.name ≡ b.name = (name_eq_iff a.name b.name).0 (ground (arith, h)) in
      λ i. record { dir = d i; name = n i },
  λ e.
      subst (λ x. (eqb_ℤ a.dir x.dir && name_eq a.name x.name) ≡ true) e
        (rw ((eqb_ℤ_iff a.dir a.dir).1 refl, (name_eq_iff a.name a.name).1 refl) refl),
)

set_file_other :
    (p q : FilePath) (c : Option (List ℕ)) (d : Memory) → p ≢ q → set_file p c d q ≡ d q
set_file_other p q c d ne = elim (Bool-cases (path_eq p q)) [
  | inl e ↦ absurd (ne ((path_eq_iff p q).0 e))
  | inr e ↦ rw e refl
]

set_file_own : (p : FilePath) (c : Option (List ℕ)) (d : Memory) → set_file p c d p ≡ c
set_file_own p c d = rw ((path_eq_iff p p).1 refl) refl

untouched : (op : Op) (d : Memory) (q : FilePath) → ¬ (Touches op q) → in_memory op d q ≡ d q
unfolding in_memory
untouched (create p) d q ne = set_file_other p q _ d ne
untouched (write p bs) d q ne = set_file_other p q _ d ne
untouched (rename a b) d q ne =
    set_file_other b q (d a) (set_file a none d) (λ e. ne (inr e))
    ∙ set_file_other a q none d (λ e. ne (inl e))
untouched (remove p) d q ne = set_file_other p q _ d ne
untouched (mkdir_all id) d q ne = refl
untouched (sync p) d q ne = refl
untouched (close p) d q ne = refl
untouched (sync_dir id) d q ne = refl

memory-IsFaithful : IsFaithful memory
unfolding in_memory
memory-IsFaithful = record {
  untouched = untouched;
  created = λ p d n. set_file_own p (some []) d;
  appended = λ p bs old d e n. set_file_own p _ d ∙ ap (λ c. append_to c bs) e;
  renamed = λ a b d n. set_file_own b (d a) (set_file a none d);
  kept = λ a b d n. absurd (n refl);
}

abbrev key : ℕ → SubtaskKey
key i = record { vertex_id = "map"; index = i }

abbrev job : Metadata
job = record { vertices = record { id = "map"; parallelism = 2; count = pos 0 } ∷ []; seed = 7 }

-- Both subtasks' states are on the disk.
abbrev full : Memory
full =
    (write_subtask_state memory (pos 1) (key 1) (5 ∷ [])
      (write_subtask_state memory (pos 1) (key 0) (4 ∷ []) (λ _. none)).1).1

abbrev payload : SubtaskKey → List ℕ
payload k = (4 + k.index) ∷ []

job-FitsMetadata : FitsMetadata job
unfolding bytes_of
job-FitsMetadata = record {
  seed = omega arith;
  few = omega arith;
  vertices = (
    record {
      bytes = omega arith;
      short = omega arith;
      small = omega arith;
      count_IsInt64 = omega arith;
    },
    tt,
  );
}

full-HasPayload :
    All (HasPayload memory memory-IsFaithful (pos 1) payload full) (subtasks job.vertices)
unfolding key_eq subtasks keys_from write_subtask_state is_bad_vertex_id write_file_synced in_memory
    bytes_of
full-HasPayload = (
  record { stored = refl; small = omega arith },
  (record { stored = refl; small = omega arith }, tt),
)

done : (complete memory (pos 1) job full).0 ≡ none
unfolding complete write_file_synced
done = refl

load-complete_example :
    load memory (pos 1) (complete memory (pos 1) job full).1
    ≡ loaded (job, map (λ k. (k, payload k)) (subtasks job.vertices))
load-complete_example =
    load-complete memory memory-IsFaithful (pos 1) payload job full (omega arith) job-FitsMetadata
      full-HasPayload done

render-injective_example : temp (state_file (key 0)) ≡ temp (state_file (key 0))
render-injective_example =
    render-injective (temp (state_file (key 0))) (temp (state_file (key 0))) refl

-- The calls of a Complete that goes through, before its marker is there.
abbrev calls : Log
calls = promised (pos 1) job

marked_after : before_marker (complete (recorder memory) (pos 1) job (full, [])).1.1 ≡ some calls
unfolding complete write_file_synced logged before_marker puts_marker promised file_calls
marked_after = refl

complete-order_example : calls ≡ promised (pos 1) job
complete-order_example = complete-order memory (pos 1) job full calls marked_after

-- The coordinator, on this file system.
abbrev S : Storage
S = file_storage memory memory-IsFaithful

abbrev run_calls : List Call
run_calls = acks (pos 1) (key 0) (4 ∷ []) ∷ acks (pos 1) (key 1) (5 ∷ []) ∷ []

completed : is_completed (run S (new_coordinator (λ _. none) job) run_calls) (pos 1) ≡ true
unfolding run step new_coordinator subtasks keys_from key_eq acknowledge is_completed contains
    mention settle write_missing mark_complete is_done payload_of count_outstanding
    write_subtask_state is_bad_vertex_id bytes_of write_file_synced complete
completed = refl

run_files-durable_example :
    let c = run S (new_coordinator (λ _. none) job) run_calls in
    (c.disk (path (pos 1) complete_name) ≡ some (marker (pos 1)))
    × ((k : SubtaskKey)
        → contains (subtasks job.vertices) k ≡ true
        → (payload : List ℕ) × (c.disk (path (pos 1) (state_file k))
            ≡ some (encode_subtask_state (pos 1) k payload)))
run_files-durable_example =
    run_files-durable memory memory-IsFaithful (λ _. none) job run_calls (pos 1) completed

-- A file "a", a directory without its marker, and two that are complete.
abbrev listed : List DirEntry
listed =
    record { is_dir = false; name = 97 ∷ []; has_marker = false }
    ∷ record { is_dir = true; name = dir_name (pos 13); has_marker = false }
    ∷ completed_dir (pos 12)
    ∷ completed_dir (pos 3)
    ∷ []

listed-IsExpected : (e : DirEntry) → Has e listed → IsExpected e
listed-IsExpected e (inl p) = plain_file (ap (λ (x : DirEntry). x.is_dir) p)
listed-IsExpected e (inr (inl p)) = own (pos 13) (omega arith) (ap (λ (x : DirEntry). x.name) p)
listed-IsExpected e (inr (inr (inl p))) =
    own (pos 12) (omega arith) (ap (λ (x : DirEntry). x.name) p)
listed-IsExpected e (inr (inr (inr (inl p)))) =
    own (pos 3) (omega arith) (ap (λ (x : DirEntry). x.name) p)
listed-IsExpected e (inr (inr (inr (inr p)))) = absurd p

latest-IsNewest_example :
    (o : Option ℤ) × (latest (entries listed) ≡ latest_is o) × IsNewest listed o
latest-IsNewest_example = latest-IsNewest listed listed-IsExpected

-- A directory "chk-007" that the storage did not make counts for checkpoint 7.
latest_padded :
    latest (
      entries (
        completed_dir (pos 3)
        ∷ record {
          is_dir = true;
          name = 99 ∷ 104 ∷ 107 ∷ 45 ∷ 48 ∷ 48 ∷ 55 ∷ [];
          has_marker = true;
        }
        ∷ []))
    ≡ latest_is (some (pos 7))
unfolding latest scan checkpoint_of strip_prefix parse_int dir_name format_int
latest_padded = refl

latest_numeric :
    latest (entries (completed_dir (pos 3) ∷ completed_dir (pos 12) ∷ []))
    ≡ latest_is (some (pos 12))
unfolding latest scan checkpoint_of strip_prefix parse_int dir_name format_int
latest_numeric = refl
