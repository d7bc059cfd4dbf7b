-- ===== src/Storage/Atomic.antt =====
-- `AtomicWriteFile` is atomic: after a success, after each failure, and at every moment between.
use libreseed.Prelude.{
  ℕ, ◌≡◌, ◌≢◌, none, some, arith, Result, ok, err, All, ◌⊎◌, inl, inr, Bool-cases, ◌∙◌, sym,
}
use libreseed.Text.{Bytes, bytes_discrete}
use libreseed.GoMap.{lookup, delete}
use libreseed.GoMap.Laws.{lookup-insert_ne, lookup-insert_self, lookup-delete}
use libreseed.Storage.{
  File, Files, WriteError, no_parent_dir, no_temp_file, not_written, not_synced, not_closed,
  no_permissions, not_renamed, Env, Disk, atomic_write, put_temp, rename_temp, write_temp, call,
  change, next_call, clean_up, fails, M,
}

module _ {D : Type 0} (env : Env D) (path : Bytes) (content : D) (perm : ℕ) (before : Files D) where
  abbrev pub written : File D
  written = record { content = content; mode = perm }

  -- Every path but the target and the temporary file is as before.
  abbrev pub OthersSame : Files D → Type 0
  OthersSame files =
      (key : Bytes)
      → key ≢ env.tmp
      → key ≢ path
      → lookup bytes_discrete key files ≡ lookup bytes_discrete key before

  -- The others are as before, and the target holds its old file or the whole new one.
  abbrev pub IsOldOrNew : Files D → Type 0
  IsOldOrNew files =
      OthersSame files
      × ((lookup bytes_discrete path files ≡ lookup bytes_discrete path before)
          ⊎ (lookup bytes_discrete path files ≡ some written))

  -- Nothing has changed but the temporary file.
  abbrev pub IsSame : Files D → Type 0
  IsSame files =
      (key : Bytes)
      → key ≢ env.tmp
      → lookup bytes_discrete key files ≡ lookup bytes_discrete key before

  pub put_temp-IsSame :
      (c : D) (mode : ℕ) (files : Files D) → IsSame files → IsSame (put_temp env c mode files)
  put_temp-IsSame c mode files h key n =
      lookup-insert_ne bytes_discrete env.tmp key _ files n ∙ h key n

  delete-IsSame : (files : Files D) → IsSame files → IsSame (delete bytes_discrete env.tmp files)
  delete-IsSame files h key n =
      ground (arith, lookup-delete bytes_discrete env.tmp key files, h key n)

  module _ (apart : path ≢ env.tmp) where
    IsOldOrNew-of_same : (files : Files D) → IsSame files → IsOldOrNew files
    IsOldOrNew-of_same files h = (λ key n _. h key n, inl (h path apart))

    -- The disk while the call has not reached its rename.
    abbrev pub IsSafe : Disk D → Type 0
    IsSafe d = IsSame d.files × All IsOldOrNew d.history

    change-IsSafe :
        (f : Files D → Files D) (d : Disk D) → IsSame (f d.files) → IsSafe d → IsSafe (change f d)
    change-IsSafe f d h s = (h, (IsOldOrNew-of_same (f d.files) h, s.1))

    pub call-IsSafe :
        (e : WriteError) (f : Files D → Files D) (d : Disk D)
        → IsSame (f d.files)
        → IsSafe d
        → IsSafe (call env e f d).1
    call-IsSafe e f d h s = elim (Bool-cases (fails env.fault e)) [
      | inl q ↦ rw q s
      | inr q ↦ rw q (change-IsSafe f d h s)
    ]

    -- What a call leaves behind, by its result.
    unfoldable pub Outcome : Result WriteError (Unit {0}) × Disk D → Type 0
    Outcome (ok u, d) =
        OthersSame d.files
        × (lookup bytes_discrete path d.files ≡ some written)
        × (lookup bytes_discrete env.tmp d.files ≡ none)
        × All IsOldOrNew d.history
    Outcome (err e, d) = IsSafe d

    pub next_call-Outcome :
        (r : Result WriteError (Unit {0}) × Disk D) (k : Unit {0} → M D (Unit {0}))
        → IsSafe r.1
        → ((u : Unit {0}) (d : Disk D) → IsSafe d → Outcome (k u d))
        → Outcome (next_call k r)
    unfolding Outcome next_call
    next_call-Outcome (ok u, d) k s h = h u d s
    next_call-Outcome (err e, d) k s h = s

    pub write_temp-IsSafe : (d : Disk D) → IsSafe d → IsSafe (write_temp env content d).1
    write_temp-IsSafe d s = elim (Bool-cases (fails env.fault not_written)) [
      | inl q ↦ rw q (
          change-IsSafe (put_temp env env.partial 0o600) d
            (put_temp-IsSame env.partial 0o600 d.files s.0) s)
      | inr q ↦ rw q (
          change-IsSafe (put_temp env content 0o600) d (put_temp-IsSame content 0o600 d.files s.0)
            s)
    ]

    lookup-rename_other :
        (key : Bytes) (files : Files D)
        → key ≢ env.tmp
        → key ≢ path
        → lookup bytes_discrete key (rename_temp env path written files)
          ≡ lookup bytes_discrete key files
    lookup-rename_other key files n m =
        lookup-insert_ne bytes_discrete path key written (delete bytes_discrete env.tmp files) m
        ∙ ground (arith, lookup-delete bytes_discrete env.tmp key files)

    pub rename-Outcome :
        (d : Disk D) → IsSafe d → Outcome (call env not_renamed (rename_temp env path written) d)
    unfolding Outcome
    rename-Outcome d s = elim (Bool-cases (fails env.fault not_renamed)) [
      | inl q ↦ rw q s
      | inr q ↦
          let others : OthersSame (rename_temp env path written d.files) =
            λ key n m. lookup-rename_other key d.files n m ∙ s.0 key n in
          let self =
            lookup-insert_self bytes_discrete path written
              (delete bytes_discrete env.tmp d.files) in
          rw q (
            others,
            self,
            lookup-insert_ne bytes_discrete path env.tmp written
                  (delete bytes_discrete env.tmp d.files) (λ e. apart (sym e))
                ∙ ground (arith, lookup-delete bytes_discrete env.tmp env.tmp d.files),
            ((others, inr self), s.1),
          )
    ]

    pub clean_up-Outcome :
        (r : Result WriteError (Unit {0}) × Disk D) → Outcome r → Outcome (clean_up env r)
    unfolding Outcome clean_up
    clean_up-Outcome (ok u, d) h = h
    clean_up-Outcome (err e, d) h = elim (Bool-cases env.cleanup) [
      | inl q ↦ rw q (change-IsSafe (delete bytes_discrete env.tmp) d (delete-IsSame d.files h.0) h)
      | inr q ↦ rw q h
    ]

    pub atomic_write-Outcome :
        (d : Disk D) → IsSafe d → Outcome (atomic_write env path content perm d)
    unfolding atomic_write
    atomic_write-Outcome d s =
        next_call-Outcome _ _ (call-IsSafe no_parent_dir (λ files. files) d s.0 s) λ _ d1 s1.
          next_call-Outcome _ _
            (call-IsSafe no_temp_file (put_temp env env.empty 0o600) d1
              (put_temp-IsSame env.empty 0o600 d1.files s1.0) s1)
            λ _ d2 s2. clean_up-Outcome _ (
              next_call-Outcome _ _ (write_temp-IsSafe d2 s2) λ _ d3 s3.
                next_call-Outcome _ _ (call-IsSafe not_synced (λ files. files) d3 s3.0 s3)
                  λ _ d4 s4.
                    next_call-Outcome _ _ (call-IsSafe not_closed (λ files. files) d4 s4.0 s4)
                      λ _ d5 s5.
                        next_call-Outcome _ _
                          (call-IsSafe no_permissions (put_temp env content perm) d5
                            (put_temp-IsSame content perm d5.files s5.0) s5)
                          λ _ d6 s6. rename-Outcome d6 s6)
