-- ===== src/Storage/OsFiles.antt =====
-- The calls of package os that read and write whole files, over the map of files.
use libreseed.Prelude.{ℕ, ◌≡◌, refl, Bool, true, false, Option, none, some}
use libreseed.Text.{Bytes, bytes_discrete}
use libreseed.GoMap.{lookup, insert}
use libreseed.Storage.{File, Files}

-- What `os.WriteFile` does: it succeeds, fails before it changes the file, or fails when it has
-- written something else.
pub data Write (D : Type 0) : Type 0 where
  writes refuses : Write D
  breaks_off : D → Write D

module _ {D : Type 0} where
  abbrev pub read_content : Bool → Option (File D) → Option D
  read_content true (some f) = some f.content
  read_content _ _ = none

  -- `os.ReadFile`.
  abbrev pub read_file : Bool → Bytes → Files D → Option D
  read_file readable path files = read_content readable (lookup bytes_discrete path files)

  abbrev pub mode_or : ℕ → Option (File D) → ℕ
  mode_or perm none = perm
  mode_or perm (some f) = f.mode

  -- A file that exists keeps its mode.
  abbrev pub put_file : Bytes → D → ℕ → Files D → Files D
  put_file path content perm files =
      insert bytes_discrete path
        (record { content = content; mode = mode_or perm (lookup bytes_discrete path files) }) files

  -- `os.WriteFile`: whether it succeeds, and the files after it.
  unfoldable pub os_write_file : Write D → Bytes → D → ℕ → Files D → Bool × Files D
  os_write_file writes path content perm files = (true, put_file path content perm files)
  os_write_file refuses path content perm files = (false, files)
  os_write_file (breaks_off partial) path content perm files =
      (false, put_file path partial perm files)

  pub os_write_file-ok :
      (w : Write D) (path : Bytes) (content : D) (perm : ℕ) (files : Files D)
      → (os_write_file w path content perm files).0 ≡ true
      → (os_write_file w path content perm files).1 ≡ put_file path content perm files
  unfolding os_write_file
  os_write_file-ok writes path content perm files h = refl
  os_write_file-ok refuses path content perm files h = absurd (cc h)
  os_write_file-ok (breaks_off partial) path content perm files h = absurd (cc h)
