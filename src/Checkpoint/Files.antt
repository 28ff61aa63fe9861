-- ===== src/Checkpoint/Files.antt =====
-- pkg/checkpoint/storage.go: the files of a checkpoint, how they are written and how they are read
-- back. `FileSystem` is `fileSystem` and `syncFile` with the reads that go to package os: one function
-- for the calls that can fail and change the disk, and two for those that look. A path is the
-- checkpoint whose directory it stands in, and a name.
pub mod Recording
pub mod Order
pub mod Names
pub mod Laws
pub mod Store
pub mod Implements
pub mod Load
pub mod Latest
mod Tests
use text.Mathlib.Text.{◌==◌ as str_eq}
use tidemark.Prelude.{
  ℕ, zero, suc, ◌≡◌, ℤ, Bool, true, false, ◌||◌, Option, none, some, String, List, [], ◌∷◌, ◌++◌,
  length, ltb, ◌==◌, if◌then◌else◌,
}
use tidemark.Checkpoint.Keys.{SubtaskKey, Metadata, subtasks}
use tidemark.Checkpoint.Framing.{bytes_of}
use tidemark.Checkpoint.Decimal.{format_int}
use tidemark.Checkpoint.Codec.{
  Read, ok, err, FormatError, encode_subtask_state, decode_subtask_state, encode_metadata,
  decode_metadata,
}

pub data FileName : Type 0 where
  state_file : SubtaskKey → FileName
  metadata_name : FileName
  complete_name : FileName
  temp : FileName → FileName

pub record FilePath : Type 0 where
  pub dir : ℤ
  pub name : FileName

pub data Op : Type 0 where
  mkdir_all : ℤ → Op
  create : FilePath → Op
  write : FilePath → List ℕ → Op
  sync : FilePath → Op
  close : FilePath → Op
  rename : FilePath → FilePath → Op
  sync_dir : ℤ → Op
  remove : FilePath → Op

pub record FileSystem : Type 1 where
  pub Disk : Type 0
  pub FsError : Type 0
  pub perform : Op → Disk → Option FsError × Disk
  -- os.Stat and os.ReadFile: what is absent is `none`.
  pub read_file : Disk → FilePath → Option (List ℕ)

abbrev pub Outcome : Type 0 → Type 0 → Type 0
Outcome E D = Option E × D

-- What follows a step that may fail, and what cleans up behind one that failed.
abbrev pub and_then : {E D : Type 0} → Outcome E D → (D → Outcome E D) → Outcome E D
and_then (none, d) k = k d
and_then (some e, d) k = (some e, d)

abbrev pub on_error : {E D : Type 0} → Outcome E D → (D → D) → Outcome E D
on_error (none, d) f = (none, d)
on_error (some e, d) f = (some e, f d)

pub data StorageError (E : Type 0) : Type 0 where
  bad_vertex_id : String → StorageError E
  in_file_system : E → StorageError E

abbrev pub wrap_error : {E D : Type 0} → Outcome E D → Outcome (StorageError E) D
wrap_error (none, d) = (none, d)
wrap_error (some e, d) = (some (in_file_system e), d)

contains_slash : List ℕ → Bool
contains_slash [] = false
contains_slash (b ∷ bs) = (b == 47) || contains_slash bs

-- Whether checkVertexID has an error. filepath.Separator is the slash.
unfoldable pub is_bad_vertex_id : String → Bool
unfolding contains_slash
is_bad_vertex_id id =
    str_eq id ""
    || ((str_eq id "." || str_eq id "..")
        || (contains_slash (bytes_of id) || ltb 65535 (length (bytes_of id))))

abbrev pub path : ℤ → FileName → FilePath
path id name = record { dir = id; name = name }

-- The marker's contents: the ID and a newline.
pub marker : ℤ → List ℕ
marker id = format_int id ++ (10 ∷ [])

module _ (F : FileSystem) where
  open F use {Disk, FsError, perform, read_file}

  -- Close and Remove on the way out of an error: their own errors are dropped.
  abbrev pub discard : FilePath → Disk → Disk
  discard tmp d = (perform (remove tmp) d).1

  abbrev pub close_and_discard : FilePath → Disk → Disk
  close_and_discard tmp d = discard tmp (perform (close tmp) d).1

  unfoldable pub write_file_synced : ℤ → FileName → List ℕ → Disk → Outcome FsError Disk
  write_file_synced id name bytes d =
      let tmp = path id (temp name) in
      and_then (perform (create tmp) d) λ d1.
        and_then (on_error (perform (write tmp bytes) d1) (close_and_discard tmp)) λ d2.
          and_then (on_error (perform (sync tmp) d2) (close_and_discard tmp)) λ d3.
            and_then (on_error (perform (close tmp) d3) (discard tmp))
              λ d4. perform (rename tmp (path id name)) d4

  unfoldable pub write_subtask_state :
      ℤ → SubtaskKey → List ℕ → Disk → Outcome (StorageError FsError) Disk
  write_subtask_state id key payload d =
      if is_bad_vertex_id key.vertex_id
      then (some (bad_vertex_id key.vertex_id), d)
      else wrap_error (
          and_then (perform (mkdir_all id) d)
            (write_file_synced id (state_file key) (encode_subtask_state id key payload)))

  unfoldable pub complete : ℤ → Metadata → Disk → Outcome (StorageError FsError) Disk
  unfolding marker
  complete id m d = wrap_error (
      and_then (perform (mkdir_all id) d) λ d1.
        and_then (write_file_synced id metadata_name (encode_metadata m) d1) λ d2.
          and_then (perform (sync_dir id) d2) λ d3.
            and_then (write_file_synced id complete_name (marker id) d3) (perform (sync_dir id)))
