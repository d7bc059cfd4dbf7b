-- ===== src/Storage/WriteFile.antt =====
-- What a caller of `AtomicWriteFile` can rely on.
use libreseed.Prelude.{
  ℕ, ◌≡◌, ◌≢◌, refl, false, none, some, [], arith, is_empty, Result, ok, err, All, inl, inr,
  Bool-cases, subst,
}
use libreseed.Text.{Bytes, bytes_discrete}
use libreseed.GoMap.{lookup}
use libreseed.Storage.{Files, WriteError, Env, Disk, atomic_write_file, write_file}
use libreseed.Storage.Atomic.{
  Outcome, OthersSame, IsSame, IsOldOrNew, written, IsSafe, atomic_write-Outcome,
}

module _ {D : Type 0} (env : Env D) (path : Bytes) (content : D) (perm : ℕ) (files : Files D) where
  abbrev pub start : Disk D
  start = record { files = files; history = [] }

  start-IsSafe : (apart : path ≢ env.tmp) → IsSafe env path content perm files apart start
  start-IsSafe apart = (λ key n. refl, tt)

  atomic_write_file-Outcome :
      (apart : path ≢ env.tmp)
      → Outcome env path content perm files apart (atomic_write_file env path content perm start)
  unfolding atomic_write_file Outcome
  atomic_write_file-Outcome apart = elim (Bool-cases (is_empty path)) [
    | inl q ↦ rw q (start-IsSafe apart)
    | inr q ↦
        rw q (atomic_write-Outcome env path content perm files apart start (start-IsSafe apart))
  ]

  Outcome-history :
      (apart : path ≢ env.tmp) (r : Result WriteError (Unit {0}) × Disk D)
      → Outcome env path content perm files apart r
      → All (IsOldOrNew env path content perm files) r.1.history
  unfolding Outcome
  Outcome-history apart (ok u, d) h = h.3
  Outcome-history apart (err e, d) h = h.1

  -- If the temporary file is not the target, then after each system call of `AtomicWriteFile`,
  -- whichever call fails, the target holds its old file or the whole new one, and the files other
  -- than these two are as before.
  pub atomic_write_file_crash :
      path ≢ env.tmp
      → All
          (IsOldOrNew env path content perm files)
          (atomic_write_file env path content perm start).1.history
  atomic_write_file_crash apart = Outcome-history apart _ (atomic_write_file-Outcome apart)

  -- The two ways in which the call can end.
  abbrev pub Ends : Result WriteError (Unit {0}) × Files D → Type 0
  Ends (ok u, after) =
      OthersSame env path content perm files after
      × (lookup bytes_discrete path after ≡ some (written env path content perm files))
      × (lookup bytes_discrete env.tmp after ≡ none)
  Ends (err e, after) = IsSame env path content perm files after

  Outcome-Ends :
      (apart : path ≢ env.tmp) (r : Result WriteError (Unit {0}) × Disk D)
      → Outcome env path content perm files apart r
      → Ends (r.0, r.1.files)
  unfolding Outcome
  Outcome-Ends apart (ok u, d) h = (h.0, h.1, h.2)
  Outcome-Ends apart (err e, d) h = h.0

  -- If the temporary file is not the target, then after a success of `AtomicWriteFile` the target
  -- holds the new contents with the given permissions, no temporary file is left, and the other
  -- files are as before; after an error every file but the temporary one is what it was.
  write_file-Ends : path ≢ env.tmp → Ends (write_file env path content perm files)
  unfolding write_file
  write_file-Ends apart = Outcome-Ends apart _ (atomic_write_file-Outcome apart)

  -- A write to a path that is not empty succeeds if no system call fails.
  write_file_total :
      env.fault ≡ none → is_empty path ≡ false → (write_file env path content perm files).0 ≡ ok tt
  unfolding write_file atomic_write_file
  write_file_total h q = rw (q, h) refl

  Ends-of_eq :
      path ≢ env.tmp
      → (r : Result WriteError (Unit {0}) × Files D) → write_file env path content perm files ≡ r
      → Ends r
  Ends-of_eq apart r e = subst Ends e (write_file-Ends apart)

  nonempty_of_ok :
      (after : Files D)
      → write_file env path content perm files ≡ (ok tt, after)
      → is_empty path ≡ false
  unfolding write_file atomic_write_file
  nonempty_of_ok after e = elim (Bool-cases (is_empty path)) [
    | inl q ↦ absurd (ground arith)
    | inr q ↦ q
  ]

  -- After a success the target can be read back, and was not the empty path.
  pub write_file-eq-ok :
      (after : Files D)
      → path ≢ env.tmp
      → write_file env path content perm files ≡ (ok tt, after)
      → (is_empty path ≡ false)
        × OthersSame env path content perm files after
        × (lookup bytes_discrete path after ≡ some (written env path content perm files))
  write_file-eq-ok after apart e =
      let h = Ends-of_eq apart (ok tt, after) e in (nonempty_of_ok after e, h.0, h.1)

  -- After an error only the temporary file can differ.
  pub write_file-eq-err :
      (after : Files D) (f : WriteError)
      → path ≢ env.tmp
      → write_file env path content perm files ≡ (err f, after)
      → IsSame env path content perm files after
  write_file-eq-err after f apart e = Ends-of_eq apart (err f, after) e
