-- ===== src/Checkpoint/Files/Order.antt =====
-- pkg/checkpoint/storage.go: the order of the writes of `Complete`.
use tidemark.Prelude.{ℕ, ◌≡◌, ◌≢◌, refl, ℤ, Bool, true, false, none, some, List, [], ◌∷◌, ◌++◌}
use tidemark.Checkpoint.Keys.{Metadata}
use tidemark.Checkpoint.Codec.{encode_metadata}
use tidemark.Checkpoint.Files.{
  FileName, metadata_name, complete_name, temp, FilePath, path, mkdir_all, create, write, sync,
  close, rename, sync_dir, remove, FileSystem, Outcome, and_then, wrap_error, discard,
  close_and_discard, write_file_synced, complete, marker,
}
use tidemark.Checkpoint.Files.Recording.{
  Log, logged, recorder, is_marker, puts_marker, before_marker, before_marker-append, first_cases,
  later_cases, last_cases, dropped,
}

-- The calls for one file, up to its rename.
unfoldable pub file_calls : ℤ → FileName → List ℕ → Log
file_calls id name bytes =
    (create (path id (temp name)), true)
    ∷ (write (path id (temp name)) bytes, true)
    ∷ (sync (path id (temp name)), true)
    ∷ (close (path id (temp name)), true)
    ∷ []

-- The calls for one file, the rename with whether it succeeded included.
unfoldable pub written : ℤ → FileName → List ℕ → Bool → Log
unfolding file_calls
written id name bytes b =
    file_calls id name bytes ++ ((rename (path id (temp name)) (path id name), b) ∷ [])

-- All that has to be on the disk before the marker is.
unfoldable pub promised : ℤ → Metadata → Log
unfolding marker
promised id m =
    ((mkdir_all id, true) ∷ file_calls id metadata_name (encode_metadata m))
    ++ ((rename (path id (temp metadata_name)) (path id metadata_name), true)
        ∷ (sync_dir id, true)
        ∷ file_calls id complete_name (marker id))

discarded {ℓ} :
    (F : FileSystem) (P : F.Disk × Log → Type ℓ) (tmp : FilePath) (log l : Log) (d : F.Disk)
    → before_marker l ≡ none
    → ((d' : F.Disk) (l' : Log) → before_marker l' ≡ none → P (d', log ++ l'))
    → P (discard (recorder F) tmp (d, log ++ l))
unfolding puts_marker
discarded F P tmp log l d quiet keep =
    dropped P (remove tmp) log l (F.perform (remove tmp) d) refl quiet keep

close_and_discarded {ℓ} :
    (F : FileSystem) (P : F.Disk × Log → Type ℓ) (tmp : FilePath) (log l : Log) (d : F.Disk)
    → before_marker l ≡ none
    → ((d' : F.Disk) (l' : Log) → before_marker l' ≡ none → P (d', log ++ l'))
    → P (close_and_discard (recorder F) tmp (d, log ++ l))
unfolding puts_marker
close_and_discarded F P tmp log l d quiet keep =
    dropped (λ s. P (discard (recorder F) tmp s)) (close tmp) log l (F.perform (close tmp) d) refl
      quiet (λ d' l' q. discarded F P tmp log l' d' q keep)

-- A file that is written: the calls up to the rename, then the rename, which may fail; or else calls
-- none of which puts the marker in place.
write_file_synced_cases {ℓ} :
    (F : FileSystem) (id : ℤ) (name : FileName) (bytes : List ℕ)
    (P : Outcome F.FsError (F.Disk × Log) → Type ℓ) (log : Log) (d : F.Disk)
    (k : F.Disk × Log → Outcome F.FsError (F.Disk × Log))
    → ((d' : F.Disk) → P (k (d', log ++ written id name bytes true)))
    → ((e : F.FsError) (d' : F.Disk) → P (some e, (d', log ++ written id name bytes false)))
    → ((e : F.FsError) (d' : F.Disk) (l : Log)
        → before_marker l ≡ none
        → P (some e, (d', log ++ l)))
    → P (and_then (write_file_synced (recorder F) id name bytes (d, log)) k)
unfolding write_file_synced file_calls written before_marker puts_marker
write_file_synced_cases F id name bytes P log d k good bad quiet =
    let tmp = path id (temp name) in
    let Q = λ (o : Outcome F.FsError (F.Disk × Log)). P (and_then o k) in
    let made = (create tmp, true) ∷ [] in
    let filled = (create tmp, true) ∷ (write tmp bytes, true) ∷ [] in
    let synced = (create tmp, true) ∷ (write tmp bytes, true) ∷ (sync tmp, true) ∷ [] in
    let closed =
      (create tmp, true) ∷ (write tmp bytes, true) ∷ (sync tmp, true) ∷ (close tmp, true) ∷ [] in
    first_cases Q (create tmp) log (F.perform (create tmp) d) _
      (λ d1.
        later_cases Q (write tmp bytes) log made (F.perform (write tmp bytes) d1)
          (close_and_discard (recorder F) tmp) _
          (λ d2.
            later_cases Q (sync tmp) log filled (F.perform (sync tmp) d2)
              (close_and_discard (recorder F) tmp) _
              (λ d3.
                later_cases Q (close tmp) log synced (F.perform (close tmp) d3)
                  (discard (recorder F) tmp) _
                  (λ d4.
                    last_cases P (rename tmp (path id name)) log closed
                      (F.perform (rename tmp (path id name)) d4) k good bad)
                  (λ e d'.
                    discarded F (λ s. P (some e, s)) tmp log (synced ++ ((close tmp, false) ∷ []))
                      d' refl (quiet e)))
              (λ e d'.
                close_and_discarded F (λ s. P (some e, s)) tmp log
                  (filled ++ ((sync tmp, false) ∷ [])) d' refl (quiet e)))
          (λ e d'.
            close_and_discarded F (λ s. P (some e, s)) tmp log
              (made ++ ((write tmp bytes, false) ∷ [])) d' refl (quiet e)))
      (λ e d'. quiet e d' ((create tmp, false) ∷ []) refl)

quiet_end :
    (log l before : Log)
    → before_marker log ≡ none
    → before_marker l ≡ none
    → before_marker (log ++ l) ≢ some before
quiet_end log l before h k e = absurd (cc (rw (before_marker-append log l h, k) at e))

-- The rename that puts the marker in place may itself fail.
ends_renaming :
    (id : ℤ) (m : Metadata) (before : Log)
    → before_marker (
        promised id m
        ++ ((rename (path id (temp complete_name)) (path id complete_name), false) ∷ []))
      ≡ some before
    → before ≡ promised id m
unfolding before_marker puts_marker is_marker promised file_calls
ends_renaming id m before h = cc

-- The directory's last fsync comes after the marker, whatever becomes of it.
ends_promised :
    (F : FileSystem) (id : ℤ) (m : Metadata) (before : Log) (x : Outcome F.FsError F.Disk)
    → before_marker
        (wrap_error (
          logged
            (sync_dir id)
            (promised id m
              ++ ((rename (path id (temp complete_name)) (path id complete_name), true) ∷ []))
            x)).1.1
      ≡ some before
    → before ≡ promised id m
unfolding logged before_marker puts_marker is_marker promised file_calls
ends_promised F id m before (none, d) h = cc
ends_promised F id m before (some e, d) h = cc

-- When Complete puts the marker in place, the directory, the metadata -- written, fsynced, closed and
-- renamed -- and the fsync of the directory have all succeeded before, in this order and with nothing
-- between, and the marker's own file has been written, fsynced and closed.
pub complete-order :
    (F : FileSystem) (id : ℤ) (m : Metadata) (d : F.Disk) (before : Log)
    → before_marker (complete (recorder F) id m (d, [])).1.1 ≡ some before
    → before ≡ promised id m
unfolding complete before_marker puts_marker is_marker file_calls written promised marker
complete-order F id m d before h =
    let P = λ (o : Outcome F.FsError (F.Disk × Log)).
      before_marker (wrap_error o).1.1 ≡ some before → before ≡ promised id m in
    let meta = encode_metadata m in
    let opened = (mkdir_all id, true) ∷ [] in
    let described = opened ++ written id metadata_name meta true in
    let durable = described ++ ((sync_dir id, true) ∷ []) in
    first_cases P (mkdir_all id) [] (F.perform (mkdir_all id) d) _
      (λ d1.
        write_file_synced_cases F id metadata_name meta P opened d1 _
          (λ d2.
            first_cases P (sync_dir id) described (F.perform (sync_dir id) d2) _
              (λ d3.
                write_file_synced_cases F id complete_name (marker id) P durable d3 _
                  (λ d4. ends_promised F id m before (F.perform (sync_dir id) d4))
                  (λ e d'. ends_renaming id m before)
                  (λ e d' l q. λ h. absurd (quiet_end durable l before refl q h)))
              (λ e d'.
                λ h. absurd (quiet_end described ((sync_dir id, false) ∷ []) before refl refl h)))
          (λ e d'. λ h. absurd (quiet_end [] ((mkdir_all id, false) ∷ []) before refl refl h))
          (λ e d' l q. λ h. absurd (quiet_end opened l before refl q h)))
      (λ e d'. λ h. absurd (quiet_end [] ((mkdir_all id, false) ∷ []) before refl refl h)) h
