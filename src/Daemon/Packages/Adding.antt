-- ===== src/Daemon/Packages/Adding.antt =====
-- `AddPackage`: what a success guarantees, and what is left when the save fails.
use libreseed.Prelude.{◌≡◌, ◌≢◌, refl, ap, true, none, some, subst, Result, ok, err, ite}
use libreseed.Text.{Bytes, bytes_discrete}
use libreseed.GoMap.{lookup}
use libreseed.GoMap.Laws.{lookup-insert, lookup-insert_self}
use libreseed.Storage.{Env, Files}
use libreseed.Daemon.PackageInfo.{PackageInfo, validate_package_info}
use libreseed.Daemon.Packages.{
  PackageManager, Yaml, IsRoundTrip, World, ManagerError, already_exists, not_saved, SaveError,
  save_state, load_state, commit, add_valid, add_package,
}
use libreseed.Daemon.Packages.Invariant.{IsValid, add_package-IsValid}
use libreseed.Daemon.Packages.Persist.{load_state-save_state}
use libreseed.Daemon.Packages.Methods.{with_info, added_of_ok}

module _ {D : Type 0} (yaml : Yaml D) (env : Env D) (w : World D) (info : PackageInfo) where
  -- When `AddPackage` on a valid database returns no error, the package's id was new; the database
  -- then holds the package beside every one that it held, and a restart reads the same database
  -- back, if yaml reads back what it writes and the temporary file is not the metadata file.
  pub add_package_ok :
      (after : World D)
      → IsRoundTrip yaml
      → w.manager.meta_file ≢ env.tmp
      → IsValid w.manager.packages
      → add_package yaml env w info ≡ (ok tt, after)
      → (lookup bytes_discrete info.package_id w.manager.packages ≡ none)
        × ((key : Bytes)
            → lookup bytes_discrete key after.manager.packages
              ≡ ite
                  (bytes_discrete key info.package_id)
                  (some info)
                  (lookup bytes_discrete key w.manager.packages))
        × (load_state yaml true after.manager after.files ≡ ok after.manager)
  add_package_ok after trip apart v e =
      let (valid, new, same, saved) = added_of_ok yaml env w info after e in
      let kept : IsValid (with_info yaml env w info).packages =
        rw (ap (λ (m : PackageManager). m.packages) same) at (
          subst (λ (r : Result ManagerError (Unit {0}) × World D). IsValid r.1.manager.packages) e
            (add_package-IsValid yaml env w info v)) in
      (
        new,
        λ key. rw same (lookup-insert bytes_discrete info.package_id key info w.manager.packages),
        rw same (
            load_state-save_state yaml env (with_info yaml env w info) w.files after.files trip
              apart kept.distinct kept.keyed saved),
      )

  -- When the save of a valid package with a new id fails, the database in memory holds the package
  -- all the same: the call returns the error, and the same call made again is told that the
  -- package exists.
  pub add_package_unsaved :
      (e : SaveError) (files : Files D) (env' : Env D)
      → validate_package_info (some info) ≡ ok tt
      → lookup bytes_discrete info.package_id w.manager.packages ≡ none
      → save_state yaml env (with_info yaml env w info) w.files ≡ (err e, files)
      → let r = add_package yaml env w info in
        (r.0 ≡ err (not_saved e))
        × (lookup bytes_discrete info.package_id r.1.manager.packages ≡ some info)
        × (add_package yaml env' r.1 info ≡ (err (already_exists info.package_id), r.1))
  unfolding add_package add_valid commit
  add_package_unsaved e files env' valid new failed =
      rw (valid, new, failed)
        (
          refl,
          lookup-insert_self bytes_discrete info.package_id info w.manager.packages,
          rw (lookup-insert_self bytes_discrete info.package_id info w.manager.packages) refl,
        )
