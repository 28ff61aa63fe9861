-- ===== src/Checkpoint/Files/Store.antt =====
-- pkg/checkpoint/storage.go: `Storage` on a file system is a storage as the coordinator wants it.
use tidemark.Prelude.{
  ℕ, ◌≡◌, ◌≢◌, ◌⊎◌, refl, sym, ap, ◌∙◌, subst, ℤ, eqb_ℤ, eqb_ℤ_iff, none, some, List, arith, inl,
  inr, Option-cases, Bool-cases,
}
use tidemark.Checkpoint.Keys.{SubtaskKey, Metadata, key_eq, key_eq_iff}
use tidemark.Checkpoint.Codec.{encode_subtask_state, encode_metadata}
use tidemark.Checkpoint.Files.{
  FileName, metadata_name, complete_name, state_file, temp, FilePath, path, mkdir_all, sync_dir,
  FileSystem, Outcome, and_then, wrap_error, write_file_synced, marker,
}
use tidemark.Checkpoint.Files.Laws.{IsFaithful, Wrote, write_file_synced-Wrote, and_then_plain}

abbrev pub kind : FileName → ℕ
kind (state_file k) = 0
kind metadata_name = 1
kind complete_name = 2
kind (temp n) = 3

-- Names of different kinds are different, in whatever directories.
pub kinds_apart : (a b : FileName) (x y : ℤ) → kind a ≢ kind b → path x a ≢ path y b
kinds_apart a b x y ne e = ne (ap (λ (p : FilePath). kind p.name) e)

abbrev pub key_of : SubtaskKey → FileName → SubtaskKey
key_of j (state_file k) = k
key_of j metadata_name = j
key_of j complete_name = j
key_of j (temp n) = j

pub wrap_none : {E D : Type 0} (o : Outcome E D) → (wrap_error o).0 ≡ none → o.0 ≡ none
wrap_none (none, d) h = refl
wrap_none (some e, d) h = absurd (cc)

pub wrap_disk : {E D : Type 0} (o : Outcome E D) → (wrap_error o).1 ≡ o.1
wrap_disk (none, d) = refl
wrap_disk (some e, d) = refl

-- Either one state file or two.
pub paths_cases :
    (x y : ℤ) (k j : SubtaskKey)
    → (path x (state_file k) ≢ path y (state_file j)) ⊎ ((x ≡ y) × (k ≡ j))
paths_cases x y k j = elim (Bool-cases (eqb_ℤ x y)) [
  | inr e ↦ inl (λ p. absurd (cc (e, (eqb_ℤ_iff x y).1 (ap (λ (q : FilePath). q.dir) p))))
  | inl e ↦ elim (Bool-cases (key_eq k j)) [
    | inr f ↦
        inl (λ p. absurd (cc (f, (key_eq_iff k j).1 (ap (λ (q : FilePath). key_of k q.name) p))))
    | inl f ↦ inr ((eqb_ℤ_iff x y).0 e, (key_eq_iff k j).0 f)
  ]
]

module _ (F : FileSystem) (law : IsFaithful F) where
  open F use {Disk, FsError, perform, read_file}

  -- The subtask's state is on the disk, with some payload.
  unfoldable pub HasState : Disk → ℤ → SubtaskKey → Type 0
  HasState d id k =
      (payload : List ℕ) × (read_file d (path id (state_file k))
        ≡ some (encode_subtask_state id k payload))

  unfoldable pub IsMarked : Disk → ℤ → Type 0
  IsMarked d id = read_file d (path id complete_name) ≡ some (marker id)

  -- Nothing that the coordinator relies on is gone.
  pub record Keeps (d d' : Disk) : Type 0 where
    pub states :
        (i : ℤ) (j : SubtaskKey)
        → read_file d' (path i (state_file j)) ≡ read_file d (path i (state_file j))
    pub marks : (i : ℤ) → IsMarked d i → IsMarked d' i

  pub Keeps-trans : (d d' d'' : Disk) → Keeps d d' → Keeps d' d'' → Keeps d d''
  Keeps-trans d d' d'' h k = record {
    states = λ i j. k.states i j ∙ h.states i j;
    marks = λ i m. k.marks i (h.marks i m);
  }

  pub same-Keeps : (d d' : Disk) → ((q : FilePath) → read_file d' q ≡ read_file d q) → Keeps d d'
  unfolding IsMarked
  same-Keeps d d' h = record {
    states = λ i j. h (path i (state_file j));
    marks = λ i m. h (path i complete_name) ∙ m;
  }

  pub metadata-Keeps :
      (id : ℤ) (bytes : List ℕ) (d : Disk) (o : Outcome FsError Disk)
      → Wrote F law id metadata_name bytes d o
      → Keeps d o.1
  unfolding IsMarked
  metadata-Keeps id bytes d o w = record {
    states = λ i j.
        w.others (path i (state_file j))
          (kinds_apart metadata_name (state_file j) id i (omega arith))
          (kinds_apart (temp metadata_name) (state_file j) id i (omega arith));
    marks = λ i m.
        w.others (path i complete_name) (kinds_apart metadata_name complete_name id i (omega arith))
          (kinds_apart (temp metadata_name) complete_name id i (omega arith))
        ∙ m;
  }

  own_mark :
      (id : ℤ) (d : Disk) (o : Outcome FsError Disk)
      → Wrote F law id complete_name (marker id) d o
      → read_file d (path id complete_name) ≡ some (marker id)
      → read_file o.1 (path id complete_name) ≡ some (marker id)
  own_mark id d o w m = elim (Option-cases o.0) [
    | inl e ↦ w.there e
    | inr (x, e) ↦ w.as_before (λ n. absurd (cc (e, n))) ∙ m
  ]

  marker-Keeps :
      (id : ℤ) (d : Disk) (o : Outcome FsError Disk)
      → Wrote F law id complete_name (marker id) d o
      → Keeps d o.1
  unfolding IsMarked
  marker-Keeps id d o w = record {
    states = λ i j.
        w.others (path i (state_file j))
          (kinds_apart complete_name (state_file j) id i (omega arith))
          (kinds_apart (temp complete_name) (state_file j) id i (omega arith));
    marks = λ i m. elim (Bool-cases (eqb_ℤ id i)) [
      | inr e ↦
          w.others (path i complete_name)
            (λ p. absurd (cc (e, (eqb_ℤ_iff id i).1 (ap (λ (q : FilePath). q.dir) p))))
            (kinds_apart (temp complete_name) complete_name id i (omega arith))
          ∙ m
      | inl e ↦
          subst (λ x. read_file o.1 (path x complete_name) ≡ some (marker x)) ((eqb_ℤ_iff id i).0 e)
            (own_mark id d o w (
              subst (λ x. read_file d (path x complete_name) ≡ some (marker x))
                (sym ((eqb_ℤ_iff id i).0 e)) m))
    ];
  }

  pub mkdir_same :
      (id : ℤ) (d : Disk) (q : FilePath) → read_file (perform (mkdir_all id) d).1 q ≡ read_file d q
  mkdir_same id d q = law.untouched (mkdir_all id) d q (λ t. t)

  pub sync_same :
      (id : ℤ) (d : Disk) (q : FilePath) → read_file (perform (sync_dir id) d).1 q ≡ read_file d q
  sync_same id d q = law.untouched (sync_dir id) d q (λ t. t)

  -- A file system's outcome of Complete.
  pub record Completes (id : ℤ) (m : Metadata) (d : Disk) (o : Outcome FsError Disk) : Type 0 where
    pub keeps : Keeps d o.1
    pub marked : o.0 ≡ none → IsMarked o.1 id
    pub described : o.0 ≡ none → read_file o.1 (path id metadata_name) ≡ some (encode_metadata m)

  pub failed-Completes :
      (id : ℤ) (m : Metadata) (d d' : Disk) (e : FsError)
      → Keeps d d'
      → Completes id m d (some e, d')
  failed-Completes id m d d' e h = record {
    keeps = h;
    marked = λ n. absurd (cc);
    described = λ n. absurd (cc);
  }

  -- The second half of Complete, behind the metadata: `d'` holds it.
  pub mark-Completes :
      (id : ℤ) (m : Metadata) (d d' : Disk)
      → Keeps d d'
      → read_file d' (path id metadata_name) ≡ some (encode_metadata m)
      → Completes id m d
          (and_then (write_file_synced F id complete_name (marker id) d') (perform (sync_dir id)))
  unfolding IsMarked
  mark-Completes id m d d' h meta =
      let o = write_file_synced F id complete_name (marker id) d' in
      let w = write_file_synced-Wrote F law id complete_name (marker id) d' in
      let k = Keeps-trans d d' o.1 h (marker-Keeps id d' o w) in
      and_then_plain (Completes id m d) o (perform (sync_dir id))
        (λ n. record {
          keeps =
              Keeps-trans d o.1 (perform (sync_dir id) o.1).1 k
                (same-Keeps o.1 _ (sync_same id o.1));
          marked = λ _. sync_same id o.1 (path id complete_name) ∙ w.there n;
          described = λ _.
              sync_same id o.1 (path id metadata_name)
              ∙ w.others (path id metadata_name)
                  (kinds_apart complete_name metadata_name id id (omega arith))
                  (kinds_apart (temp complete_name) metadata_name id id (omega arith))
              ∙ meta;
        })
        (λ e. failed-Completes id m d o.1 e k)
