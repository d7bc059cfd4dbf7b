-- ===== src/Storage/Copy.antt =====
-- pkg/storage/filesystem.go: copies of files and their hashes.
pub mod Copies
use libreseed.Prelude.{
  ℕ, Bool, true, false, Option, none, some, [], is_empty, if◌then◌else◌, Result, ok, err, wrap_err,
}
use libreseed.Text.{Bytes, bytes_discrete}
use libreseed.GoMap.{lookup}
use libreseed.Crypto.Keys.{Primitives}
use libreseed.Storage.{File, Files, WriteError, Env, Disk, M, atomic_write}

pub data CopyError : Type 0 where
  empty_source empty_destination source_not_opened source_not_statted : CopyError
  not_copied : WriteError → CopyError

-- `CopyFile` after the checks. Its system calls are those of `AtomicWriteFile` in the same order,
-- `not_written` standing for the errors of `io.Copy` and of `Flush`.
unfoldable pub copy_content :
    {D : Type 0} → Env D → Bytes → File D → Files D → Result CopyError (Unit {0}) × Disk D
copy_content env dst source files =
    let (r, d) =
      atomic_write env dst source.content source.mode (record { files = files; history = [] }) in
    (wrap_err not_copied r, d)

-- The source as `os.Open` and `Stat` find it: a file that can be opened.
abbrev pub open_source : {D : Type 0} → Bool → Option (File D) → Option (File D)
open_source true found = found
open_source false found = none

-- `CopyFile`: whether the source can be opened, and `Stat` works; the disk after it, with what
-- was on it after each system call.
unfoldable pub copy_file :
    {D : Type 0}
    → Env D
    → Bool
    → Bool
    → Bytes
    → Bytes
    → Files D
    → Result CopyError (Unit {0}) × Disk D
unfolding copy_content
copy_file env opens stats src dst files =
    let same : Disk _ = record { files = files; history = [] } in
    if is_empty src
    then (err empty_source, same)
    else if is_empty dst
    then (err empty_destination, same)
    else elim (open_source opens (lookup bytes_discrete src files)) [
      | none ↦ (err source_not_opened, same)
      | some source ↦
          if stats then copy_content env dst source files else (err source_not_statted, same)
    ]

pub data ReadError : Type 0 where
  empty_read_path file_not_opened file_not_read : ReadError

-- `ComputeFileHash`: whether the file can be opened, and read to its end.
unfoldable pub compute_file_hash :
    Primitives → Bool → Bool → Bytes → Files Bytes → Result ReadError Bytes
compute_file_hash prims opens reads path files =
    if is_empty path
    then err empty_read_path
    else elim (open_source opens (lookup bytes_discrete path files)) [
      | none ↦ err file_not_opened
      | some f ↦ if reads then ok (prims.sha256 f.content) else err file_not_read
    ]
