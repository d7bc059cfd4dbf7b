-- ===== src/Daemon/Packages.antt =====
-- pkg/daemon/package_manager.go: the package database over a file system. `yaml` and the system
-- calls are parameters; each method is given what the operating system decides and the time.
pub mod Invariant
pub mod Runs
pub mod Refinement
pub mod Methods
pub mod Adding
pub mod Removing
pub mod Persist
pub mod Loading
use libreseed.Prelude.{
  ℕ, ◌≡◌, Bool, true, false, Option, none, some, List, [], ◌∷◌, map, length, is_some, if◌then◌else◌,
  Result, ok, err, wrap_err,
}
use libreseed.Text.{Bytes, bytes_discrete}
use libreseed.GoMap.{GoMap, values, lookup, insert, delete}
use libreseed.Storage.{
  File, Files, WriteError, Env, write_file, file_exists, RemoveError, safe_remove,
}
use libreseed.Daemon.PackageInfo.{PackageInfo, InfoError, validate_package_info}

pub record PackageManager : Type 0 where
  pub packages : GoMap Bytes PackageInfo
  pub storage_dir : Bytes
  pub meta_file : Bytes

-- gopkg.in/yaml.v3 on lists of packages: `none` is an error, and an entry `none` a nil pointer.
pub record Yaml (D : Type 0) : Type 0 where
  pub marshal : List PackageInfo → Option D
  pub unmarshal : D → Option (List (Option PackageInfo))

-- What is written is read back.
abbrev pub IsRoundTrip : {D : Type 0} → Yaml D → Type 0
IsRoundTrip {D} yaml =
    (l : List PackageInfo) (d : D) → yaml.marshal l ≡ some d → yaml.unmarshal d ≡ some (map some l)

abbrev pub new_package_manager : Bytes → Bytes → PackageManager
new_package_manager storage_dir meta_file = record {
  packages = [];
  storage_dir = storage_dir;
  meta_file = meta_file;
}

-- `nil_entry` is the nil dereference of `pkg.PackageID`, which panics.
pub data LoadError : Type 0 where
  not_read not_parsed nil_entry : LoadError

-- The loop that builds the map: a later entry replaces an earlier one with its id.
unfoldable pub build_map :
    GoMap Bytes PackageInfo → List (Option PackageInfo) → Result LoadError (GoMap Bytes PackageInfo)
build_map m [] = ok m
build_map m (none ∷ l) = err nil_entry
build_map m (some info ∷ l) = build_map (insert bytes_discrete info.package_id info m) l

abbrev pub with_packages : PackageManager → GoMap Bytes PackageInfo → PackageManager
with_packages pm m = record pm { packages = m }

unfoldable pub parse_packages :
    PackageManager → Option (List (Option PackageInfo)) → Result LoadError PackageManager
unfolding build_map
parse_packages pm none = err not_parsed
parse_packages pm (some l) = elim (build_map [] l) [
  | ok m ↦ ok (with_packages pm m)
  | err e ↦ err e
]

unfoldable pub read_packages :
    {D : Type 0} → Yaml D → PackageManager → Option (File D) → Result LoadError PackageManager
unfolding parse_packages
read_packages yaml pm none = err not_read
read_packages yaml pm (some f) = parse_packages pm (yaml.unmarshal f.content)

-- `LoadState`: `readable` says whether `os.ReadFile` works.
unfoldable pub load_state :
    {D : Type 0} → Yaml D → Bool → PackageManager → Files D → Result LoadError PackageManager
unfolding read_packages file_exists
load_state yaml readable pm files =
    if file_exists pm.meta_file files
    then (if readable
        then read_packages yaml pm (lookup bytes_discrete pm.meta_file files)
        else err not_read)
    else ok (with_packages pm [])

pub data SaveError : Type 0 where
  not_marshalled : SaveError
  not_stored : WriteError → SaveError

unfoldable pub store_packages :
    {D : Type 0}
    → Env D
    → PackageManager
    → Files D
    → Option D
    → Result SaveError (Unit {0}) × Files D
store_packages env pm files none = (err not_marshalled, files)
store_packages env pm files (some d) =
    let (r, files') = write_file env pm.meta_file d 0o644 files in (wrap_err not_stored r, files')

-- `SaveState`.
unfoldable pub save_state :
    {D : Type 0} → Yaml D → Env D → PackageManager → Files D → Result SaveError (Unit {0}) × Files D
unfolding store_packages
save_state yaml env pm files = store_packages env pm files (yaml.marshal (values pm.packages))

-- The database and the disk.
pub record World (D : Type 0) : Type 0 where
  pub manager : PackageManager
  pub files : Files D

pub data ManagerError : Type 0 where
  invalid_info : InfoError → ManagerError
  already_exists : Bytes → ManagerError
  not_found : Bytes → ManagerError
  not_deleted : RemoveError → ManagerError
  not_saved : SaveError → ManagerError

-- The map has been changed; the change is saved.
unfoldable pub commit :
    {D : Type 0}
    → Yaml D
    → Env D
    → PackageManager
    → Files D
    → Result ManagerError (Unit {0}) × World D
commit yaml env pm files =
    let (r, files') = save_state yaml env pm files in
    (wrap_err not_saved r, record { manager = pm; files = files' })

-- `AddPackage` of a package that is valid.
unfoldable pub add_valid :
    {D : Type 0} → Yaml D → Env D → World D → PackageInfo → Result ManagerError (Unit {0}) × World D
unfolding commit
add_valid yaml env w info =
    if is_some (lookup bytes_discrete info.package_id w.manager.packages)
    then (err (already_exists info.package_id), w)
    else commit yaml env
        (with_packages w.manager (insert bytes_discrete info.package_id info w.manager.packages))
        w.files

abbrev pub when_valid :
    {D : Type 0}
    → Result InfoError (Unit {0})
    → World D
    → Result ManagerError (Unit {0}) × World D
    → Result ManagerError (Unit {0}) × World D
when_valid (ok u) w r = r
when_valid (err e) w r = (err (invalid_info e), w)

-- `AddPackage`.
unfoldable pub add_package :
    {D : Type 0} → Yaml D → Env D → World D → PackageInfo → Result ManagerError (Unit {0}) × World D
unfolding add_valid
add_package yaml env w info =
    when_valid (validate_package_info (some info)) w (add_valid yaml env w info)

abbrev pub after_removal :
    {D : Type 0}
    → Yaml D
    → Env D
    → Bytes
    → World D
    → Result RemoveError (Unit {0}) × Files D
    → Result ManagerError (Unit {0}) × World D
after_removal yaml env id w (err e, files) = (err (not_deleted e), record w { files = files })
after_removal yaml env id w (ok u, files) =
    commit yaml env (with_packages w.manager (delete bytes_discrete id w.manager.packages)) files

-- `RemovePackage`: `refused` says that the file cannot be deleted.
unfoldable pub remove_package :
    {D : Type 0}
    → Yaml D
    → Env D
    → Bool
    → World D
    → Bytes
    → Result ManagerError (Unit {0}) × World D
unfolding commit safe_remove
remove_package yaml env refused w id = elim (lookup bytes_discrete id w.manager.packages) [
  | none ↦ (err (not_found id), w)
  | some info ↦ after_removal yaml env id w (safe_remove refused info.file_path w.files)
]

unfoldable pub announce : Bool → ℕ → PackageInfo → PackageInfo
announce true now info = record info { announced_to_dht = true; last_announced = now }
announce false now info = record info { announced_to_dht = false }

-- `UpdateAnnouncementStatus`.
unfoldable pub update_announcement_status :
    {D : Type 0}
    → Yaml D
    → Env D
    → World D
    → Bytes
    → Bool
    → ℕ
    → Result ManagerError (Unit {0}) × World D
unfolding commit announce
update_announcement_status yaml env w id announced now =
    elim (lookup bytes_discrete id w.manager.packages) [
      | none ↦ (err (not_found id), w)
      | some info ↦
          commit yaml env
            (with_packages w.manager
              (insert bytes_discrete id (announce announced now info) w.manager.packages))
            w.files
    ]

unfoldable pub get_package : PackageManager → Bytes → Option PackageInfo
get_package pm id = lookup bytes_discrete id pm.packages

unfoldable pub list_packages : PackageManager → List PackageInfo
list_packages pm = values pm.packages

unfoldable pub package_exists : PackageManager → Bytes → Bool
package_exists pm id = is_some (lookup bytes_discrete id pm.packages)

unfoldable pub count : PackageManager → ℕ
count pm = length pm.packages
