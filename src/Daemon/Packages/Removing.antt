-- ===== src/Daemon/Packages/Removing.antt =====
-- `RemovePackage`: what a success guarantees, and that a failure to delete the file changes nothing.
use libreseed.Prelude.{
  ◌≡◌, ◌≢◌, refl, ◌∙◌, ap, Bool, true, none, some, arith, Option-cases, Bool-cases, Result, ok, err,
  wrap_err, inl, inr, ite, is_empty,
}
use libreseed.Text.{Bytes, bytes_discrete}
use libreseed.GoMap.{lookup, delete}
use libreseed.GoMap.Laws.{lookup-delete}
use libreseed.Storage.{Env, Files, RemoveError, empty_remove_path, not_removed, safe_remove}
use libreseed.Storage.WriteFile.{write_file-eq-ok}
use libreseed.Daemon.PackageInfo.{PackageInfo}
use libreseed.Daemon.Packages.{
  PackageManager, Yaml, IsRoundTrip, World, ManagerError, not_deleted, not_saved, SaveError,
  save_state, load_state, with_packages, commit, after_removal, remove_package,
}
use libreseed.Daemon.Packages.Invariant.{IsValid, delete-IsValid}
use libreseed.Daemon.Packages.Persist.{load_state-save_state, save_state-eq-ok}

module _ {D : Type 0} (yaml : Yaml D) (env : Env D) (w : World D) (id : Bytes) where
  abbrev pub without : PackageManager
  without = with_packages w.manager (delete bytes_discrete id w.manager.packages)

  -- What a successful removal has done, step by step.
  record Removed (refused : Bool) (after : World D) : Type 0 where
    info : PackageInfo
    stored : lookup bytes_discrete id w.manager.packages ≡ some info
    manager : after.manager ≡ without
    saved :
        save_state yaml env without (delete bytes_discrete info.file_path w.files)
        ≡ (ok tt, after.files)

  Removed-of_ok :
      (refused : Bool) (after : World D)
      → remove_package yaml env refused w id ≡ (ok tt, after)
      → Removed refused after
  unfolding remove_package commit safe_remove
  Removed-of_ok refused after e =
      elim (Option-cases (lookup bytes_discrete id w.manager.packages)) [
        | inl q ↦ absurd (ground arith)
        | inr (info, q) ↦ go info q (rw (q, remove_package) at e)
      ]
    where
      committed :
          (info : PackageInfo) (r : Result SaveError (Unit {0}) × Files D)
          → lookup bytes_discrete id w.manager.packages ≡ some info
          → save_state yaml env without (delete bytes_discrete info.file_path w.files) ≡ r
          → ◌≡◌ {A = Result ManagerError (Unit {0}) × World D}
              (wrap_err not_saved r.0, record { manager = without; files = r.1 })
              (ok tt, after)
          → Removed refused after
      committed info (ok u, f) q s h = record {
        info = info;
        stored = q;
        manager = ground arith;
        saved = s ∙ ground arith;
      }
      committed info (err x, f) q s h = absurd (ground arith)

      go :
          (info : PackageInfo)
          → lookup bytes_discrete id w.manager.packages ≡ some info
          → after_removal yaml env id w (safe_remove refused info.file_path w.files)
            ≡ (ok tt, after)
          → Removed refused after
      go info q h = elim (Bool-cases (is_empty info.file_path)) [
        | inl p ↦ absurd (ground arith)
        | inr p ↦ elim (Bool-cases refused) [
          | inl r ↦ absurd (ground arith)
          | inr r ↦
              committed info
                (save_state yaml env without (delete bytes_discrete info.file_path w.files)) q refl
                (rw (p, r) at h)
        ]
      ]

  -- After a successful removal the database is the old one without the id.
  pub manager_of_removed :
      (refused : Bool) (after : World D)
      → remove_package yaml env refused w id ≡ (ok tt, after)
      → after.manager ≡ without
  manager_of_removed refused after e = (Removed-of_ok refused after e).manager

  -- When `RemovePackage` of a listed package of a valid database returns no error, the package is
  -- gone from the database, its file is gone from the disk, every other package is as before, and
  -- a restart reads this database back, if yaml reads back what it writes. The package's file, the
  -- metadata file and the temporary file must be three different ones.
  pub remove_package_ok :
      (refused : Bool) (after : World D) (info : PackageInfo)
      → IsRoundTrip yaml
      → w.manager.meta_file ≢ env.tmp
      → IsValid w.manager.packages
      → lookup bytes_discrete id w.manager.packages ≡ some info
      → info.file_path ≢ env.tmp
      → info.file_path ≢ w.manager.meta_file
      → remove_package yaml env refused w id ≡ (ok tt, after)
      → ((key : Bytes)
          → lookup bytes_discrete key after.manager.packages
            ≡ ite (bytes_discrete key id) none (lookup bytes_discrete key w.manager.packages))
        × (lookup bytes_discrete info.file_path after.files ≡ none)
        × (load_state yaml true after.manager after.files ≡ ok after.manager)
  remove_package_ok refused after info trip apart v known n m e =
      let r = Removed-of_ok refused after e in
      let files = delete bytes_discrete r.info.file_path w.files in
      let kept = delete-IsValid id w.manager.packages v in
      let (c, marshalled, stored) = save_state-eq-ok yaml env without files after.files r.saved in
      let (nonempty, others, found) =
        write_file-eq-ok env w.manager.meta_file c 0o644 files after.files apart stored in
      let same : r.info ≡ info = ground (arith, r.stored, known) in
      (
        λ key. rw r.manager (lookup-delete bytes_discrete id key w.manager.packages),
        others info.file_path n m
            ∙ ground (
              arith,
              lookup-delete bytes_discrete r.info.file_path info.file_path w.files,
              ap (λ (i : PackageInfo). i.file_path) same,
            ),
        rw r.manager (
            load_state-save_state yaml env without files after.files trip apart kept.distinct
              kept.keyed r.saved),
      )

  -- Of a listed package whose file cannot be deleted, `RemovePackage` returns an error and changes
  -- neither the database nor the disk.
  pub remove_package_refused :
      (info : PackageInfo)
      → lookup bytes_discrete id w.manager.packages ≡ some info
      → (e : RemoveError) × (remove_package yaml env true w id ≡ (err (not_deleted e), w))
  unfolding remove_package safe_remove
  remove_package_refused info q = elim (Bool-cases (is_empty info.file_path)) [
    | inl p ↦ (empty_remove_path, rw (q, remove_package) (rw p refl))
    | inr p ↦ (not_removed, rw (q, remove_package) (rw p refl))
  ]
