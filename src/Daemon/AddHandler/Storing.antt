-- ===== src/Daemon/AddHandler/Storing.antt =====
-- What `handlePackageAdd` leaves in the database and on the disk.
use libreseed.Prelude.{
  ℕ, ◌≡◌, refl, sym, ap, ◌∙◌, Bool, true, false, none, some, arith, Option-cases, Bool-cases, ite,
  inl, inr, Result, ok, err, add_word,
}
use libreseed.Text.{Bytes, bytes_discrete}
use libreseed.GoMap.{lookup, insert, delete}
use libreseed.GoMap.Laws.{lookup-delete, lookup-insert}
use libreseed.Storage.{file_exists, Files, Env}
use libreseed.Package.Manifest.{Package}
use libreseed.Daemon.PackageInfo.{PackageInfo, InfoError, validate_package_info}
use libreseed.Daemon.Packages.{
  PackageManager, World, Yaml, ManagerError, already_exists, invalid_info, when_valid, add_package,
  add_valid, commit, update_announcement_status, announce, package_exists, with_packages,
}
use libreseed.Daemon.Packages.Methods.{added_of_ok}
use libreseed.Daemon.AddHandler.Accepting.{refusal}
use libreseed.Daemon.AddHandler.{
  Daemon, AddRequest, AddEnv, accept, info_of, put_file, after_add, announce_stored, store_package,
  handle_package_add, count_added,
}

module _ {D : Type 0} where
  add_package_known :
      (yaml : Yaml D) (env : Env D) (w : World D) (info old : PackageInfo)
      → lookup bytes_discrete info.package_id w.manager.packages ≡ some old
      → (e : ManagerError) × (add_package yaml env w info ≡ (err e, w))
  unfolding add_package add_valid
  add_package_known yaml env w info old h = by_check (validate_package_info (some info))
    where
      by_check :
          (r : Result InfoError (Unit {0}))
          → (e : ManagerError) × (when_valid r w (add_valid yaml env w info) ≡ (err e, w))
      by_check (ok u) = (already_exists info.package_id, rw h refl)
      by_check (err e) = (invalid_info e, refl)

module _ {D : Type 0} where
  file_exists-delete :
      (path : Bytes) (files : Files D) → file_exists path (delete bytes_discrete path files) ≡ false
  unfolding file_exists
  file_exists-delete path files = ground (arith, lookup-delete bytes_discrete path path files)

module _ {D : Type 0} (env : AddEnv D) (req : AddRequest D) (d : Daemon D) where
  -- Where the file of a request goes: `filepath.Join(pm.storageDir, header.Filename)`.
  abbrev pub destination : Bytes
  destination = env.join d.world.manager.storage_dir req.filename

  -- Adding an accepted package whose id the database lists replies 500 and leaves the database as
  -- it was, but no file is left at the destination, if the file can be written and removed.
  pub handle_package_add_again :
      (pkg : Package) (old : PackageInfo)
      → env.write_works ≡ true
      → env.remove_works ≡ true
      → accept env req ≡ ok pkg
      → lookup bytes_discrete pkg.package_id d.world.manager.packages ≡ some old
      → let r = handle_package_add env req d in
        (r.0 ≡ 500)
        × (r.1.world.manager ≡ d.world.manager)
        × (file_exists destination r.1.world.files ≡ false)
  unfolding handle_package_add store_package after_add file_exists
  handle_package_add_again pkg old written removed accepted known =
      let (e, refused) =
        add_package_known env.yaml env.save_env
          (record {
            manager = d.world.manager;
            files = put_file destination req.content d.world.files;
          })
          (info_of env.prims pkg env.now destination) old known in
      rw (accepted, handle_package_add, store_package, written, refused, after_add, removed)
        (
          refl,
          refl,
          file_exists-delete destination (put_file destination req.content d.world.files),
        )

module _ {D : Type 0} (env : AddEnv D) where
  update-package_exists :
      (w : World D) (id key : Bytes) (announced : Bool) (now : ℕ)
      → package_exists
          (update_announcement_status env.yaml env.status_env w id announced now).1.manager
          key
        ≡ package_exists w.manager key
  unfolding update_announcement_status commit package_exists
  update-package_exists w id key announced now =
      elim (Option-cases (lookup bytes_discrete id w.manager.packages)) [
        | inl e ↦ rw (e, update_announcement_status) refl
        | inr (info, e) ↦
            rw (e, update_announcement_status)
              (ground (
                arith,
                lookup-insert bytes_discrete id key (announce announced now info)
                    w.manager.packages,
              ))
      ]

  announce_stored-package_exists :
      (info : PackageInfo) (d : Daemon D) (key : Bytes)
      → package_exists (announce_stored env info d).world.manager key
        ≡ package_exists d.world.manager key
  unfolding announce_stored
  announce_stored-package_exists info d key =
      ground (arith, update-package_exists d.world info.package_id key true env.status_now)

  announce_stored-active_packages :
      (info : PackageInfo) (d : Daemon D)
      → (announce_stored env info d).active_packages ≡ d.active_packages
  unfolding announce_stored
  announce_stored-active_packages info d = ground arith

package_exists-insert :
    (pm : PackageManager) (info : PackageInfo) (key : Bytes)
    → package_exists (with_packages pm (insert bytes_discrete info.package_id info pm.packages)) key
      ≡ ite (bytes_discrete key info.package_id) true (package_exists pm key)
unfolding package_exists
package_exists-insert pm info key =
    ground (arith, lookup-insert bytes_discrete info.package_id key info pm.packages)

module _ {D : Type 0} (env : AddEnv D) (req : AddRequest D) (d after : Daemon D) where
  -- What is known once `AddPackage` has succeeded.
  pub record Stored (pkg : Package) : Type 0 where
    pub accepted : accept env req ≡ ok pkg
    pub new : lookup bytes_discrete pkg.package_id d.world.manager.packages ≡ none
    pub listed :
        (key : Bytes)
        → package_exists after.world.manager key
          ≡ ite (bytes_discrete key pkg.package_id) true (package_exists d.world.manager key)
    pub counted : after.active_packages ≡ add_word d.active_packages 1

  Stored-of_ok :
      (pkg : Package) (w : World D)
      → accept env req ≡ ok pkg
      → add_package env.yaml env.save_env
          (record {
            manager = d.world.manager;
            files = put_file (destination env req d) req.content d.world.files;
          })
          (info_of env.prims pkg env.now (destination env req d))
        ≡ (ok tt, w)
      → count_added (
          announce_stored env
            (info_of env.prims pkg env.now (destination env req d))
            (record d { world = w }))
        ≡ after
      → Stored pkg
  Stored-of_ok pkg w accepted added e =
      let info = info_of env.prims pkg env.now (destination env req d) in
      let (_, new, same, _) = added_of_ok env.yaml env.save_env _ info w added in
      record {
        accepted = accepted;
        new = new;
        listed = λ key.
            ap (λ (x : Daemon D). package_exists x.world.manager key) (sym e)
            ∙ announce_stored-package_exists env info (record d { world = w }) key
            ∙ ap (λ (m : PackageManager). package_exists m key) same
            ∙ package_exists-insert d.world.manager info key;
        counted =
            ap (λ (x : Daemon D). x.active_packages) (sym e)
            ∙ ap (λ n. add_word n 1)
                (announce_stored-active_packages env info (record d { world = w }));
      }

  Stored-of_add :
      (pkg : Package) (r : Result ManagerError (Unit {0}) × World D)
      → accept env req ≡ ok pkg
      → add_package env.yaml env.save_env
          (record {
            manager = d.world.manager;
            files = put_file (destination env req d) req.content d.world.files;
          })
          (info_of env.prims pkg env.now (destination env req d))
        ≡ r
      → after_add env d (info_of env.prims pkg env.now (destination env req d)) r ≡ (201, after)
      → Stored pkg
  unfolding after_add
  Stored-of_add pkg (ok u, w) e added h = Stored-of_ok pkg w e added (cc (h))
  Stored-of_add pkg (err f, w) e added h = absurd (ground arith)

  Stored-of_store :
      (pkg : Package)
      → accept env req ≡ ok pkg
      → store_package env req pkg d ≡ (201, after)
      → Stored pkg
  unfolding store_package
  Stored-of_store pkg e h = elim (Bool-cases env.write_works) [
    | inl w ↦ Stored-of_add pkg _ e refl (rw (store_package, w) at h)
    | inr w ↦ absurd (ground arith)
  ]

  -- On a reply of 201 the request's package was accepted and its id was new; afterwards the
  -- database lists exactly what it listed before and that id, and the counter of active packages
  -- is one higher, modulo 2^64.
  pub handle_package_add_created :
      handle_package_add env req d ≡ (201, after) → (pkg : Package) × Stored pkg
  unfolding handle_package_add
  handle_package_add_created h = by_outcome (accept env req) refl
    where
      by_outcome : (r : Result ℕ Package) → accept env req ≡ r → (pkg : Package) × Stored pkg
      by_outcome (err status) e =
          absurd (refusal env req status e (ap (λ x. x.0) (rw (e, handle_package_add) at h)))
      by_outcome (ok pkg) e = (pkg, Stored-of_store pkg e (rw (e, handle_package_add) at h))
