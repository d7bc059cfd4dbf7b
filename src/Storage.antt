-- ===== src/Storage.antt =====
-- pkg/storage/filesystem.go: atomic writes by a temporary file and a rename, over a map from paths
-- to files. Directories are not in the map; a system call that fails is named by `Env`.
pub mod Atomic
pub mod WriteFile
pub mod Yaml
pub mod Copy
pub mod OsFiles
use libreseed.Prelude.{
  ℕ, ◌+◌, ◌≡◌, Bool, true, false, Option, none, some, List, [], ◌∷◌, ◌==◌, is_empty, is_some,
  if◌then◌else◌, Result, ok, err, fail_if,
}
use libreseed.Text.{Bytes, bytes_discrete}
use libreseed.GoMap.{GoMap, lookup, insert, delete}

-- The contents of files are of a type `D`; the permissions are the bits of the mode.
pub record File (D : Type 0) : Type 0 where
  pub content : D
  pub mode : ℕ

abbrev pub Files : Type 0 → Type 0
Files D = GoMap Bytes (File D)

-- The errors of `AtomicWriteFile`, one for each place where it returns one.
pub data WriteError : Type 0 where
  empty_path no_parent_dir no_temp_file not_written not_synced not_closed no_permissions
        not_renamed :
      WriteError

abbrev pub write_error_code : WriteError → ℕ
write_error_code empty_path = 0
write_error_code no_parent_dir = 1
write_error_code no_temp_file = 2
write_error_code not_written = 3
write_error_code not_synced = 4
write_error_code not_closed = 5
write_error_code no_permissions = 6
write_error_code not_renamed = 7

-- What the operating system decides: the call that fails, if one does, whether the clean-up after
-- it works, the name of the temporary file, the contents of a file that is created and of one
-- whose write failed half way.
pub record Env (D : Type 0) : Type 0 where
  pub fault : Option WriteError
  pub cleanup : Bool
  pub tmp : Bytes
  pub empty : D
  pub partial : D

-- The files now, and after each system call so far, the newest first.
pub record Disk (D : Type 0) : Type 0 where
  pub files : Files D
  pub history : List (Files D)

abbrev pub fails : Option WriteError → WriteError → Bool
fails none e = false
fails (some f) e = write_error_code f == write_error_code e

abbrev pub M : Type 0 → Type 0 → Type 0
M D A = Disk D → Result WriteError A × Disk D

unfoldable pub next_call :
    {D A B : Type 0} → (A → M D B) → Result WriteError A × Disk D → Result WriteError B × Disk D
next_call k (ok a, d) = k a d
next_call k (err e, d) = (err e, d)

infixl 5 ◌>>=◌ ◌>>◌
abbrev pub ◌>>=◌ : {D A B : Type 0} → M D A → (A → M D B) → M D B
◌>>=◌ m k d = next_call k (m d)

abbrev pub ◌>>◌ : {D B : Type 0} → M D (Unit {0}) → M D B → M D B
m >> k = m >>= λ _. k

abbrev pub change : {D : Type 0} → (Files D → Files D) → Disk D → Disk D
change f d = record { files = f d.files; history = f d.files ∷ d.history }

module _ {D : Type 0} (env : Env D) where
  -- A system call: it fails with its error, or takes effect.
  abbrev pub call : WriteError → (Files D → Files D) → M D (Unit {0})
  call e f d = if fails env.fault e then (err e, d) else (ok tt, change f d)

  abbrev pub put_temp : D → ℕ → Files D → Files D
  put_temp content mode = insert bytes_discrete env.tmp (record { content = content; mode = mode })

  -- `tmpFile.Write(data)`: what a failed write leaves in the temporary file is arbitrary.
  abbrev pub write_temp : D → M D (Unit {0})
  write_temp content d =
      if fails env.fault not_written
      then (err not_written, change (put_temp env.partial 0o600) d)
      else (ok tt, change (put_temp content 0o600) d)

  -- `os.Rename(tmpPath, path)`: the name `path` changes over in one step.
  abbrev pub rename_temp : Bytes → File D → Files D → Files D
  rename_temp path f files = insert bytes_discrete path f (delete bytes_discrete env.tmp files)

  -- The deferred clean-up: `tmpFile` is nil after a success.
  unfoldable pub clean_up :
      Result WriteError (Unit {0}) × Disk D → Result WriteError (Unit {0}) × Disk D
  clean_up (ok u, d) = (ok u, d)
  clean_up (err e, d) = (err e, if env.cleanup then change (delete bytes_discrete env.tmp) d else d)

  unfoldable pub atomic_write : Bytes → D → ℕ → M D (Unit {0})
  atomic_write path content perm = do
    call no_parent_dir (λ files. files)
    call no_temp_file (put_temp env.empty 0o600)
    λ d. clean_up (
        (do
          write_temp content
          call not_synced (λ files. files)
          call not_closed (λ files. files)
          call no_permissions (put_temp content perm)
          call not_renamed (rename_temp path (record { content = content; mode = perm })))
          d)

  -- `AtomicWriteFile`.
  unfoldable pub atomic_write_file : Bytes → D → ℕ → M D (Unit {0})
  unfolding atomic_write next_call clean_up
  atomic_write_file path content perm d =
      if is_empty path then (err empty_path, d) else atomic_write path content perm d

  -- The same, as seen by callers that only read the files.
  unfoldable pub write_file : Bytes → D → ℕ → Files D → Result WriteError (Unit {0}) × Files D
  write_file path content perm files =
      let (r, d) = atomic_write_file path content perm (record { files = files; history = [] }) in
      (r, d.files)

-- `FileExists`.
unfoldable pub file_exists : {D : Type 0} → Bytes → Files D → Bool
file_exists path files = if is_empty path then false else is_some (lookup bytes_discrete path files)

pub data RemoveError : Type 0 where
  empty_remove_path not_removed : RemoveError

-- `SafeRemove`: `refused` says that `os.Remove` fails for another reason than a missing file.
unfoldable pub safe_remove :
    {D : Type 0} → Bool → Bytes → Files D → Result RemoveError (Unit {0}) × Files D
safe_remove refused path files =
    if is_empty path
    then (err empty_remove_path, files)
    else if refused
    then (err not_removed, files)
    else (ok tt, delete bytes_discrete path files)
