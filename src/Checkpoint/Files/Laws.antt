-- ===== src/Checkpoint/Files/Laws.antt =====
-- pkg/checkpoint/storage.go: the files implement what the coordinator asks of its storage, on any file
-- system whose calls do what package os says.
use tidemark.Prelude.{
  ℕ, suc, ◌≡◌, ◌≢◌, ◌⊎◌, refl, ap, ◌∙◌, ℤ, none, some, List, [], ◌++◌, arith, inl, inr,
}
use tidemark.Checkpoint.Files.{
  FileName, metadata_name, complete_name, state_file, temp, FilePath, path, Op, mkdir_all, create,
  write, sync, close, rename, sync_dir, remove, FileSystem, Outcome, and_then, on_error, discard,
  close_and_discard, write_file_synced,
}

-- The files that a call may change.
abbrev pub Touches : Op → FilePath → Type 0
Touches (create p) q = p ≡ q
Touches (write p bytes) q = p ≡ q
Touches (rename a b) q = (a ≡ q) ⊎ (b ≡ q)
Touches (remove p) q = p ≡ q
Touches (mkdir_all id) q = ⊥
Touches (sync p) q = ⊥
Touches (close p) q = ⊥
Touches (sync_dir id) q = ⊥

-- What package os documents: a call changes no other file; a file that was created is empty, and one
-- that was written has the bytes behind what it had; a rename is atomic, so that one that fails leaves
-- what it was to replace.
pub record IsFaithful (F : FileSystem) : Type 0 where
  pub untouched :
      (op : Op) (d : F.Disk) (q : FilePath)
      → ¬ (Touches op q)
      → F.read_file (F.perform op d).1 q ≡ F.read_file d q
  pub created :
      (p : FilePath) (d : F.Disk)
      → (F.perform (create p) d).0 ≡ none
      → F.read_file (F.perform (create p) d).1 p ≡ some []
  pub appended :
      (p : FilePath) (bytes old : List ℕ) (d : F.Disk)
      → F.read_file d p ≡ some old
      → (F.perform (write p bytes) d).0 ≡ none
      → F.read_file (F.perform (write p bytes) d).1 p ≡ some (old ++ bytes)
  pub renamed :
      (a b : FilePath) (d : F.Disk)
      → (F.perform (rename a b) d).0 ≡ none
      → F.read_file (F.perform (rename a b) d).1 b ≡ F.read_file d a
  pub kept :
      (a b : FilePath) (d : F.Disk)
      → (F.perform (rename a b) d).0 ≢ none
      → F.read_file (F.perform (rename a b) d).1 b ≡ F.read_file d b

-- The rule for a step that may fail: what holds of the outcome of each way to end.
and_then_cases {ℓ} :
    {E D : Type 0} (P : Outcome E D → Type ℓ) (x : Outcome E D) (undo : D → D) (k : D → Outcome E D)
    → (x.0 ≡ none → P (k x.1))
    → ((e : E) → x.0 ≡ some e → P (some e, undo x.1))
    → P (and_then (on_error x undo) k)
and_then_cases P (none, d) undo k good bad = good refl
and_then_cases P (some e, d) undo k good bad = bad e refl

pub and_then_plain {ℓ} :
    {E D : Type 0} (P : Outcome E D → Type ℓ) (x : Outcome E D) (k : D → Outcome E D)
    → (x.0 ≡ none → P (k x.1))
    → ((e : E) → P (some e, x.1))
    → P (and_then x k)
and_then_plain P (none, d) k good bad = good refl
and_then_plain P (some e, d) k good bad = bad e

depth : FileName → ℕ
depth (temp n) = suc (depth n)
depth (state_file k) = 0
depth metadata_name = 0
depth complete_name = 0

temp-ne : (id : ℤ) (n : FileName) → path id (temp n) ≢ path id n
unfolding depth
temp-ne id n e = absurd (omega (arith, ap (λ (p : FilePath). depth p.name) e))

module _ (F : FileSystem) (law : IsFaithful F) where
  open F use {Disk, FsError, perform, read_file}

  -- Only the one file may have changed.
  abbrev Only : FilePath → Disk → Disk → Type 0
  Only p d d' = (q : FilePath) → p ≢ q → read_file d' q ≡ read_file d q

  Only-trans : (p : FilePath) (d d' d'' : Disk) → Only p d d' → Only p d' d'' → Only p d d''
  Only-trans p d d' d'' h k q ne = k q ne ∙ h q ne

  create-Only : (p : FilePath) (d : Disk) → Only p d (perform (create p) d).1
  create-Only p d q ne = law.untouched (create p) d q (λ t. ne t)

  write-Only : (p : FilePath) (bs : List ℕ) (d : Disk) → Only p d (perform (write p bs) d).1
  write-Only p bs d q ne = law.untouched (write p bs) d q (λ t. ne t)

  sync-Only : (p : FilePath) (d : Disk) → Only p d (perform (sync p) d).1
  sync-Only p d q ne = law.untouched (sync p) d q (λ t. t)

  close-Only : (p : FilePath) (d : Disk) → Only p d (perform (close p) d).1
  close-Only p d q ne = law.untouched (close p) d q (λ t. t)

  discard-Only : (p : FilePath) (d : Disk) → Only p d (discard F p d)
  discard-Only p d q ne = law.untouched (remove p) d q (λ t. ne t)

  close_and_discard-Only : (p : FilePath) (d : Disk) → Only p d (close_and_discard F p d)
  close_and_discard-Only p d =
      let d' = (perform (close p) d).1 in
      Only-trans p d d' (discard F p d') (close-Only p d) (discard-Only p d')

  -- After a file was written: no error and its bytes are there, or an error and it is what it was.
  -- Another file is what it was, unless it is the temporary one.
  pub record Wrote (id : ℤ) (name : FileName) (bytes : List ℕ) (d : Disk) (o : Outcome FsError Disk)
      : Type 0 where
    pub there : o.0 ≡ none → read_file o.1 (path id name) ≡ some bytes
    pub as_before : o.0 ≢ none → read_file o.1 (path id name) ≡ read_file d (path id name)
    pub others :
        (q : FilePath)
        → path id name ≢ q
        → path id (temp name) ≢ q
        → read_file o.1 q ≡ read_file d q

  failed-Wrote :
      (id : ℤ) (name : FileName) (bytes : List ℕ) (d d' : Disk) (e : FsError)
      → Only (path id (temp name)) d d'
      → Wrote id name bytes d (some e, d')
  failed-Wrote id name bytes d d' e h = record {
    there = λ n. absurd (cc);
    as_before = λ _. h (path id name) (temp-ne id name);
    others = λ q _ ne. h q ne;
  }

  rename-Wrote :
      (id : ℤ) (name : FileName) (bytes : List ℕ) (d d' : Disk)
      → Only (path id (temp name)) d d'
      → read_file d' (path id (temp name)) ≡ some bytes
      → Wrote id name bytes d (perform (rename (path id (temp name)) (path id name)) d')
  rename-Wrote id name bytes d d' h full =
      let tmp = path id (temp name) in
      let to = path id name in
      record {
        there = λ n. law.renamed tmp to d' n ∙ full;
        as_before = λ n. law.kept tmp to d' n ∙ h to (temp-ne id name);
        others = λ q ne ne_tmp.
            law.untouched (rename tmp to) d' q (λ t. elim t [ inl e ↦ ne_tmp e | inr e ↦ ne e ])
            ∙ h q ne_tmp;
      }

  pub write_file_synced-Wrote :
      (id : ℤ) (name : FileName) (bytes : List ℕ) (d : Disk)
      → Wrote id name bytes d (write_file_synced F id name bytes d)
  unfolding write_file_synced
  write_file_synced-Wrote id name bytes d =
      let tmp = path id (temp name) in
      let P = Wrote id name bytes d in
      let d1 = (perform (create tmp) d).1 in
      let d2 = (perform (write tmp bytes) d1).1 in
      let d3 = (perform (sync tmp) d2).1 in
      let d4 = (perform (close tmp) d3).1 in
      let o1 = create-Only tmp d in
      let o2 = Only-trans tmp d d1 d2 o1 (write-Only tmp bytes d1) in
      let o3 = Only-trans tmp d d2 d3 o2 (sync-Only tmp d2) in
      let o4 = Only-trans tmp d d3 d4 o3 (close-Only tmp d3) in
      let fail =
        λ (d' : Disk) (e : FsError) (h : Only tmp d d'). failed-Wrote id name bytes d d' e h in
      and_then_plain P (perform (create tmp) d) _
        (λ n1.
          and_then_cases P (perform (write tmp bytes) d1) (close_and_discard F tmp) _
            (λ n2.
              and_then_cases P (perform (sync tmp) d2) (close_and_discard F tmp) _
                (λ n3.
                  and_then_cases P (perform (close tmp) d3) (discard F tmp) _
                    (λ n4. rename-Wrote id name bytes d d4 o4 (
                      law.untouched (close tmp) d3 tmp (λ t. t)
                      ∙ law.untouched (sync tmp) d2 tmp (λ t. t)
                      ∙ law.appended tmp bytes [] d1 (law.created tmp d n1) n2))
                    (λ e _. fail _ e (Only-trans tmp d d4 _ o4 (discard-Only tmp d4))))
                (λ e _. fail _ e (Only-trans tmp d d3 _ o3 (close_and_discard-Only tmp d3))))
            (λ e _. fail _ e (Only-trans tmp d d2 _ o2 (close_and_discard-Only tmp d2))))
        (λ e. fail d1 e o1)
