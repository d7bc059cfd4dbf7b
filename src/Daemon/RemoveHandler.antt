-- ===== src/Daemon/RemoveHandler.antt =====
-- pkg/daemon/handlers.go, `handlePackageRemove`: from a request to a status code and the daemon
-- after it. A status of 0 stands for a panic.
pub mod Removal
use libreseed.Prelude.{
  ℕ, ◌+◌, ◌-◌, Bool, true, false, not, ◌&&◌, Option, none, some, length, ltb, signed_lt, is_empty,
  if◌then◌else◌, Result, ok, err, fail_if, ◌>>◌, ◌>>=◌,
}
use libreseed.Text.{Bytes}
use libreseed.Storage.{Env}
use libreseed.Dht.Announcer
use libreseed.Daemon.PackageInfo.{PackageInfo}
use libreseed.Daemon.Packages.{
  PackageManager, Yaml, World, ManagerError, remove_package, get_package,
}
use libreseed.Daemon.AddHandler.{Daemon, or_status, info_hash_of}

pub data Method : Type 0 where
  delete_method post_method other_method : Method

-- The request: its method, whether the body of a POST can be decoded, and the id it names.
pub record RemoveRequest : Type 0 where
  pub method : Method
  pub body_decoded : Bool
  pub package_id : Bytes

-- The yaml library, whether the system refuses to delete the file, and the disk at the save.
pub record RemoveEnv (D : Type 0) : Type 0 where
  pub yaml : Yaml D
  pub refused : Bool
  pub save_env : Env D

unfoldable pub check_method : RemoveRequest → Result ℕ (Unit {0})
check_method req = elim req.method [
  | delete_method ↦ ok tt
  | post_method ↦ fail_if (not req.body_decoded) 400
  | other_method ↦ err 405
]

-- The handler up to the point where it starts to change the daemon.
unfoldable pub find_listed : PackageManager → RemoveRequest → Result ℕ PackageInfo
unfolding check_method
find_listed pm req = do
  check_method req
  fail_if (is_empty req.package_id) 400
  or_status (get_package pm req.package_id) 404

-- The announcement is withdrawn; `packageID[:40]` panics on an id that is shorter.
unfoldable pub withdraw : {D : Type 0} → Bytes → Daemon D → Option (Daemon D)
withdraw id d =
    if d.enable_dht && d.dht_ready
    then (if ltb (length id) 40
        then none
        else some (elim (info_hash_of id) [
          | none ↦ d
          | some h ↦ record d { announcer = Announcer.remove_package d.announcer h }
        ]))
    else some d

-- The counter of the state goes down, if it is positive.
abbrev pub count_removed : ℕ → ℕ
count_removed n = if signed_lt 0 n then n - 1 else n

unfoldable pub after_remove :
    {D : Type 0} → Daemon D → Result ManagerError (Unit {0}) × World D → ℕ × Daemon D
after_remove d (err e, w) = (500, record d { world = w })
after_remove d (ok u, w) =
    (200, record d { world = w; active_packages = count_removed d.active_packages })

unfoldable pub remove_listed :
    {D : Type 0} → RemoveEnv D → Bytes → Daemon D → Option (Daemon D) → ℕ × Daemon D
unfolding after_remove
remove_listed env id d none = (0, d)
remove_listed env id d (some e) =
    after_remove e (remove_package env.yaml env.save_env env.refused e.world id)

-- `handlePackageRemove`.
unfoldable pub handle_package_remove :
    {D : Type 0} → RemoveEnv D → RemoveRequest → Daemon D → ℕ × Daemon D
unfolding find_listed remove_listed withdraw
handle_package_remove env req d = elim (find_listed d.world.manager req) [
  | err status ↦ (status, d)
  | ok info ↦ remove_listed env req.package_id d (withdraw req.package_id d)
]
