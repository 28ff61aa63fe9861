-- ===== src/Checkpoint/Files/Load.antt =====
-- pkg/checkpoint/storage.go: `Load`, and that it reads back what `Complete` has promised. The map of
-- payloads is a list of its entries in the order in which they are made.
use tidemark.Prelude.{
  ℕ, zero, suc, ◌+◌, ◌≡◌, ◌<◌, refl, ◌∙◌, ℤ, IsInt64, String, Option, none, some, List, [], ◌∷◌,
  map, length, All, All-append, arith,
}
use tidemark.Checkpoint.Keys.{SubtaskKey, VertexMeta, Metadata, subtasks, keys_from}
use tidemark.Checkpoint.Framing.{bytes_of, IsByteString}
use tidemark.Checkpoint.Codec.{
  Read, ok, err, FormatError, encode_subtask_state, decode_subtask_state, decode_metadata,
}
use tidemark.Checkpoint.Codec.RoundTrip.{
  FitsKey, FitsVertex, FitsMetadata, decode-encode_subtask_state, decode-encode_metadata,
}
use tidemark.Checkpoint.Files.{metadata_name, complete_name, state_file, path, FileSystem, complete}
use tidemark.Checkpoint.Files.Laws.{IsFaithful}
use tidemark.Checkpoint.Files.Store.{IsMarked}
use tidemark.Checkpoint.Files.Implements.{complete-Keeps, complete-marks}

pub data LoadError : Type 0 where
  no_checkpoint : LoadError
  no_metadata : LoadError
  bad_metadata : FormatError → LoadError
  missing_state_file : SubtaskKey → LoadError
  bad_state : SubtaskKey → FormatError → LoadError

pub data Loaded (A : Type 0) : Type 0 where
  loaded : A → Loaded A
  failed : LoadError → Loaded A

abbrev pub bind : {A B : Type 0} → Loaded A → (A → Loaded B) → Loaded B
bind (loaded a) f = f a
bind (failed e) f = failed e

abbrev pub Payloads : Type 0
Payloads = List (SubtaskKey × List ℕ)

found : {A : Type 0} → Option A → LoadError → Loaded A
found none e = failed e
found (some a) e = loaded a

decoded : {A : Type 0} → Read A → (FormatError → LoadError) → Loaded A
decoded (ok a) wrap = loaded a
decoded (err e) wrap = failed (wrap e)

module _ (F : FileSystem) where
  open F use {Disk, read_file}

  load_state : ℤ → SubtaskKey → Disk → Loaded (List ℕ)
  unfolding found decoded
  load_state id key d =
      bind (found (read_file d (path id (state_file key))) (missing_state_file key))
        λ raw. decoded (decode_subtask_state raw id key) (bad_state key)

  load_states : ℤ → List SubtaskKey → Disk → Loaded Payloads
  unfolding load_state
  load_states id [] d = loaded []
  load_states id (k ∷ ks) d =
      bind (load_state id k d)
        λ payload. bind (load_states id ks d) λ rest. loaded ((k, payload) ∷ rest)

  load_files : ℤ → Metadata → Disk → Loaded (Metadata × Payloads)
  unfolding load_states
  load_files id m d = bind (load_states id (subtasks m.vertices) d) λ payloads. loaded (m, payloads)

  unfoldable pub load : ℤ → Disk → Loaded (Metadata × Payloads)
  unfolding found decoded load_files
  load id d = bind (found (read_file d (path id complete_name)) no_checkpoint) λ mark.
      bind (found (read_file d (path id metadata_name)) no_metadata)
        λ raw. bind (decoded (decode_metadata raw) bad_metadata) λ m. load_files id m d

keys_from-FitsKey :
    (id : String) (i n : ℕ)
    → IsByteString id
    → length (bytes_of id) < 65536
    → i + n < 4294967296
    → All FitsKey (keys_from id i n)
unfolding keys_from
keys_from-FitsKey id i zero hb hl h = tt
keys_from-FitsKey id i (suc n) hb hl h = (
  record { bytes = hb; short = hl; small = omega (arith, h) },
  keys_from-FitsKey id (suc i) n hb hl (omega (arith, h)),
)

subtasks-FitsKey : (vs : List VertexMeta) → All FitsVertex vs → All FitsKey (subtasks vs)
unfolding subtasks
subtasks-FitsKey [] h = tt
subtasks-FitsKey (v ∷ vs) h =
    All-append FitsKey (keys_from v.id 0 v.parallelism) (subtasks vs)
      (keys_from-FitsKey v.id 0 v.parallelism h.0.bytes h.0.short (omega (arith, h.0.small)))
      (subtasks-FitsKey vs h.1)

module _ (F : FileSystem) (law : IsFaithful F) (id : ℤ) (payload : SubtaskKey → List ℕ) where
  -- The subtask's state is on the disk, with the payload that it is given.
  pub record HasPayload (d : F.Disk) (k : SubtaskKey) : Type 0 where
    pub stored :
        F.read_file d (path id (state_file k)) ≡ some (encode_subtask_state id k (payload k))
    pub small : length (payload k) < 18446744073709551616

  load_states-All :
      (ks : List SubtaskKey) (d : F.Disk)
      → IsInt64 id
      → All FitsKey ks
      → All (HasPayload d) ks
      → load_states F id ks d ≡ loaded (map (λ k. (k, payload k)) ks)
  unfolding load_states load_state found decoded
  load_states-All [] d hi hk hs = refl
  load_states-All (k ∷ ks) d hi hk hs =
      rw
        (
          hs.0.stored,
          decode-encode_subtask_state id k (payload k) hi hk.0 hs.0.small,
          load_states-All ks d hi hk.1 hs.1,
        )
        refl

  HasPayload-kept :
      (ks : List SubtaskKey) (d d' : F.Disk)
      → ((k : SubtaskKey)
          → F.read_file d' (path id (state_file k)) ≡ F.read_file d (path id (state_file k)))
      → All (HasPayload d) ks
      → All (HasPayload d') ks
  HasPayload-kept [] d d' h a = tt
  HasPayload-kept (k ∷ ks) d d' h a =
      (record { stored = h k ∙ a.0.stored; small = a.0.small }, HasPayload-kept ks d d' h a.1)

  -- When the states of all subtasks of a job whose metadata fits the format are on the disk and
  -- Complete returns no error, Load returns the job's metadata and, for every subtask in order, the
  -- payload that was written for it.
  pub load-complete :
      (m : Metadata) (d : F.Disk)
      → IsInt64 id
      → FitsMetadata m
      → All (HasPayload d) (subtasks m.vertices)
      → (complete F id m d).0 ≡ none
      → load F id (complete F id m d).1
        ≡ loaded (m, map (λ k. (k, payload k)) (subtasks m.vertices))
  unfolding load load_files IsMarked found decoded
  load-complete m d hi hm hs n =
      let d' = (complete F id m d).1 in
      let (mark, meta) = complete-marks F law id m d n in
      let kept =
        HasPayload-kept (subtasks m.vertices) d d' ((complete-Keeps F law id m d).states id) hs in
      rw
        (
          mark,
          meta,
          decode-encode_metadata m hm,
          load_states-All (subtasks m.vertices) d' hi (subtasks-FitsKey m.vertices hm.vertices)
              kept,
        )
        refl
