-- ===== src/Daemon/RemoveHandler/Removal.antt =====
-- What `handlePackageRemove` leaves of the package.
use libreseed.Prelude.{
  ℕ, ◌≡◌, ◌≢◌, refl, sym, ap, ◌∙◌, true, false, ◌&&◌, none, some, arith, Option-cases, inl, inr,
  ite, Result, ok, err, ltb, length,
}
use libreseed.Text.{Bytes, bytes_discrete}
use libreseed.GoMap.{lookup, delete}
use libreseed.GoMap.Laws.{lookup-delete}
use libreseed.Dht.Announcer
use libreseed.Daemon.PackageInfo.{PackageInfo}
use libreseed.Daemon.Packages.{
  PackageManager, World, ManagerError, with_packages, get_package, package_exists, remove_package,
}
use libreseed.Daemon.Packages.Removing.{manager_of_removed, remove_package_refused}
use libreseed.Daemon.AddHandler.{Daemon, info_hash_of}
use libreseed.Daemon.RemoveHandler.{
  RemoveRequest, RemoveEnv, find_listed, withdraw, after_remove, remove_listed, count_removed,
  handle_package_remove,
}

lookup-remove_package :
    (a : Announcer.Announcer) (h : Bytes)
    → lookup bytes_discrete h (Announcer.remove_package a h) ≡ none
unfolding Announcer.remove_package
lookup-remove_package a h = ground (arith, lookup-delete bytes_discrete h h a)

package_exists-delete :
    (pm : PackageManager) (id key : Bytes)
    → package_exists (with_packages pm (delete bytes_discrete id pm.packages)) key
      ≡ ite (bytes_discrete key id) false (package_exists pm key)
unfolding package_exists
package_exists-delete pm id key = ground (arith, lookup-delete bytes_discrete id key pm.packages)

zero_ne : ◌≢◌ {A = ℕ} 0 200
zero_ne e = omega arith

module _ {D : Type 0} (env : RemoveEnv D) (req : RemoveRequest) (d : Daemon D) where
  lookup_of_found :
      (info : PackageInfo)
      → find_listed d.world.manager req ≡ ok info
      → lookup bytes_discrete req.package_id d.world.manager.packages ≡ some info
  unfolding find_listed get_package
  lookup_of_found info h =
      elim (Option-cases (lookup bytes_discrete req.package_id d.world.manager.packages)) [
        | inl e ↦ absurd (ground arith)
        | inr (i, e) ↦ ground arith
      ]

  exists_of_found :
      (info : PackageInfo)
      → find_listed d.world.manager req ≡ ok info
      → package_exists d.world.manager req.package_id ≡ true
  unfolding package_exists
  exists_of_found info h = ground (arith, lookup_of_found info h)

  refused_ne : (status : ℕ) → find_listed d.world.manager req ≡ err status → status ≢ 200
  unfolding find_listed
  refused_ne status h = ground arith

  -- When the file of a listed package cannot be deleted and the DHT is in use, the reply is 500
  -- and the database and the disk are as before, but the announcement of the package is withdrawn.
  -- The id has at least 40 characters and a hash.
  handle_package_remove_refused :
      (info : PackageInfo) (hash : Bytes)
      → find_listed d.world.manager req ≡ ok info
      → ltb (length req.package_id) 40 ≡ false
      → (d.enable_dht && d.dht_ready) ≡ true
      → info_hash_of req.package_id ≡ some hash
      → env.refused ≡ true
      → let r = handle_package_remove env req d in
        (r.0 ≡ 500) × (r.1.world ≡ d.world) × (lookup bytes_discrete hash r.1.announcer ≡ none)
  unfolding handle_package_remove withdraw remove_listed after_remove
  handle_package_remove_refused info hash found long dht hashed refused =
      let known = lookup_of_found info found in
      let (e, failed) =
        remove_package_refused env.yaml env.save_env d.world req.package_id info known in
      rw
        (
          handle_package_remove, found, dht, long, hashed, remove_listed, refused, failed,
          after_remove,
        )
        (refl, refl, rw hashed (lookup-remove_package d.announcer hash))

  -- What is known once a removal has been answered with 200.
  pub record Gone (after : Daemon D) : Type 0 where
    pub was_listed : package_exists d.world.manager req.package_id ≡ true
    pub listed :
        (key : Bytes)
        → package_exists after.world.manager key
          ≡ ite (bytes_discrete key req.package_id) false (package_exists d.world.manager key)
    pub counted : after.active_packages ≡ count_removed d.active_packages

  withdraw_keeps :
      (e : Daemon D)
      → withdraw req.package_id d ≡ some e
      → (e.world ≡ d.world) × (e.active_packages ≡ d.active_packages)
  unfolding withdraw
  withdraw_keeps e h = ground arith

  Gone-of_removal :
      (info : PackageInfo) (after e : Daemon D) (r : Result ManagerError (Unit {0}) × World D)
      → find_listed d.world.manager req ≡ ok info
      → withdraw req.package_id d ≡ some e
      → remove_package env.yaml env.save_env env.refused e.world req.package_id ≡ r
      → after_remove e r ≡ (200, after)
      → Gone after
  unfolding after_remove
  Gone-of_removal info after e (err f, w) found kept removed h = absurd (ground arith)
  Gone-of_removal info after e (ok u, w) found kept removed h =
      let (same, counter) = withdraw_keeps e kept in
      let manager =
        manager_of_removed env.yaml env.save_env e.world req.package_id env.refused w removed in
      let result : record e { world = w; active_packages = count_removed e.active_packages }
          ≡ after =
        cc (h) in
      record {
        was_listed = exists_of_found info found;
        listed = λ key.
            ap (λ (x : Daemon D). package_exists x.world.manager key) (sym result)
            ∙ ap (λ (m : PackageManager). package_exists m key) manager
            ∙ package_exists-delete e.world.manager req.package_id key
            ∙ ap
                (λ (x : World D).
                  ite (bytes_discrete key req.package_id) false (package_exists x.manager key))
                same;
        counted = ap (λ (x : Daemon D). x.active_packages) (sym result) ∙ ap count_removed counter;
      }

  -- A reply of 200 means that the database listed the id; afterwards it lists what it listed
  -- before, without that id, and the counter of active packages is one lower, if it was positive.
  pub handle_package_remove_done :
      (after : Daemon D) → handle_package_remove env req d ≡ (200, after) → Gone after
  unfolding handle_package_remove remove_listed
  handle_package_remove_done after h = by_outcome (find_listed d.world.manager req) refl
    where
      by_outcome : (r : Result ℕ PackageInfo) → find_listed d.world.manager req ≡ r → Gone after
      by_outcome (err status) e =
          absurd (refused_ne status e (ap (λ x. x.0) (rw (e, handle_package_remove) at h)))
      by_outcome (ok info) e = elim (Option-cases (withdraw req.package_id d)) [
        | inl q ↦ absurd (zero_ne (ap (λ x. x.0) (rw (e, q, handle_package_remove) at h)))
        | inr (x, q) ↦
            Gone-of_removal info after x _ e q refl (rw (e, q, handle_package_remove) at h)
      ]
