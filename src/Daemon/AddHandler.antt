-- ===== src/Daemon/AddHandler.antt =====
-- pkg/daemon/handlers.go, `handlePackageAdd`: from a request to a status code and the daemon after
-- it. A status of 0 stands for a panic, after which net/http closes the connection.
pub mod Accepting
pub mod Storing
use libreseed.Prelude.{
  ℕ, suc, ◌+◌, ◌≡◌, Bool, true, false, not, ◌&&◌, Option, none, some, List, [], ◌∷◌, ◌++◌, length,
  take, leb, add_word, if◌then◌else◌, Result, ok, err, fail_if, wrap_err, ◌>>◌, ◌>>=◌,
}
use libreseed.Text.{Bytes, bytes_discrete}
use libreseed.Text.Hex.{encode, decode}
use libreseed.GoMap.{GoMap, lookup, insert, delete}
use libreseed.Storage.{File, Files, Env}
use libreseed.Crypto.Keys.{Primitives, fingerprint}
use libreseed.Crypto.Signer.{
  VerifyError, bad_key_panic, DualError, creator_failed, maintainer_failed, verify_dual_signature,
}
use libreseed.Package.Manifest.{Manifest, Package, validate_manifest, validate_package}
use libreseed.Dht.Announcer
use libreseed.Dht.Announcer.{Announcer}
use libreseed.Daemon.PackageInfo.{PackageInfo}
use libreseed.Daemon.Packages.{
  PackageManager, Yaml, World, ManagerError, add_package, update_announcement_status,
}

-- The parts of the daemon that the package handlers use. `dht_ready` says that the client and the
-- announcer exist.
pub record Daemon (D : Type 0) : Type 0 where
  pub world : World D
  pub enable_dht : Bool
  pub dht_ready : Bool
  pub announcer : Announcer
  pub active_packages : ℕ
  pub total_packages_seeded : ℕ

-- The request: its method, whether its form and its file can be read, and what they hold.
pub record AddRequest (D : Type 0) : Type 0 where
  pub is_post : Bool
  pub form_parsed : Bool
  pub file_found : Bool
  pub file_read : Bool
  pub content : D
  pub filename : Bytes

-- What the handler uses of its environment: the yaml library, the cryptography, `filepath.Join`,
-- the system calls around the file, the clock, and the disk at its two saves.
pub record AddEnv (D : Type 0) : Type 0 where
  pub prims : Primitives
  pub unmarshal_package : D → Option Package
  pub marshal_manifest : Manifest → Option Bytes
  pub yaml : Yaml D
  pub join : Bytes → Bytes → Bytes
  pub write_works : Bool
  pub partial : Option D
  pub remove_works : Bool
  pub now : ℕ
  pub status_now : ℕ
  pub save_env : Env D
  pub status_env : Env D

-- `LoadPackageFromBytes`: parsing, then `Package.Validate`.
unfoldable pub load_package_from_bytes : {D : Type 0} → AddEnv D → D → Option Package
load_package_from_bytes env content = elim (env.unmarshal_package content) [
  | none ↦ none
  | some pkg ↦ elim (validate_package pkg) [ ok _ ↦ some pkg | err _ ↦ none ]
]

-- `SerializeManifest`: validation again, then marshalling.
unfoldable pub serialize_manifest : {D : Type 0} → AddEnv D → Manifest → Option Bytes
serialize_manifest env m = elim (validate_manifest m) [
  | ok _ ↦ env.marshal_manifest m
  | err _ ↦ none
]

abbrev pub or_status : {A : Type 0} → Option A → ℕ → Result ℕ A
or_status none status = err status
or_status (some a) status = ok a

-- The status of a refused pair of signatures.
unfoldable pub dual_status : DualError → ℕ
dual_status (creator_failed bad_key_panic) = 0
dual_status (maintainer_failed bad_key_panic) = 0
dual_status _ = 401

-- The handler up to the point where it starts to change the daemon.
unfoldable pub accept : {D : Type 0} → AddEnv D → AddRequest D → Result ℕ Package
unfolding load_package_from_bytes serialize_manifest dual_status
accept env req = do
  fail_if (not req.is_post) 405
  fail_if (not req.form_parsed) 400
  fail_if (not req.file_found) 400
  fail_if (not req.file_read) 500
  pkg ← or_status (load_package_from_bytes env req.content) 400
  message ← or_status (serialize_manifest env pkg.manifest) 500
  wrap_err dual_status (
      verify_dual_signature env.prims message pkg.manifest.creator_pub_key
        (some pkg.manifest_signature) pkg.manifest.maintainer_pub_key
        (some pkg.maintainer_manifest_signature))
  ok pkg

-- The metadata of the package at its place on the disk.
abbrev pub info_of : Primitives → Package → ℕ → Bytes → PackageInfo
info_of prims pkg now path = record {
  package_id = pkg.package_id;
  name = pkg.manifest.package_name;
  version = pkg.manifest.version;
  description = pkg.manifest.description;
  file_path = path;
  file_hash = pkg.manifest.content_hash;
  file_size = pkg.size_bytes;
  created_at = now;
  creator_fingerprint = fingerprint prims pkg.manifest.creator_pub_key;
  manifest_signature = encode pkg.manifest_signature.signed_data;
  maintainer_fingerprint = fingerprint prims pkg.manifest.maintainer_pub_key;
  maintainer_manifest_signature = encode pkg.maintainer_manifest_signature.signed_data;
  announced_to_dht = false;
  last_announced = 0;
}

-- `os.WriteFile(destPath, fileData, 0644)`: a file that exists keeps its mode.
abbrev pub mode_at : {D : Type 0} → Option (File D) → ℕ
mode_at none = 0o644
mode_at (some f) = f.mode

unfoldable pub put_file : {D : Type 0} → Bytes → D → Files D → Files D
put_file path content files =
    insert bytes_discrete path
      (record { content = content; mode = mode_at (lookup bytes_discrete path files) }) files

-- A failed `os.WriteFile` leaves what has been written, or, if the file was not opened, the disk.
abbrev pub cut_off : {D : Type 0} → Bytes → Option D → Files D → Files D
cut_off path none files = files
cut_off path (some partial) files = put_file path partial files

-- The hash under which a package is announced: the first 20 bytes of its id.
unfoldable pub info_hash_of : Bytes → Option Bytes
info_hash_of id = elim (decode (take 40 id)) [
  | none ↦ none
  | some bytes ↦ if leb 20 (length bytes) then some (take 20 bytes) else none
]

-- The announcement of a package that has been stored; the error of the second save is only logged.
unfoldable pub announce_stored : {D : Type 0} → AddEnv D → PackageInfo → Daemon D → Daemon D
unfolding info_hash_of
announce_stored env info d =
    if d.enable_dht && d.dht_ready
    then elim (info_hash_of info.package_id) [
      | none ↦ d
      | some h ↦ record d {
        announcer =
            Announcer.add_package d.announcer h info.name info.creator_fingerprint
              info.maintainer_fingerprint;
        world =
            (update_announcement_status env.yaml env.status_env d.world info.package_id true
              env.status_now).1;
      }
    ]
    else d

-- The counters of the state and the statistics.
abbrev pub count_added : {D : Type 0} → Daemon D → Daemon D
count_added d = record d {
  active_packages = add_word d.active_packages 1;
  total_packages_seeded = add_word d.total_packages_seeded 1;
}

-- What follows `AddPackage`: a failure removes the file that was written.
unfoldable pub after_add :
    {D : Type 0}
    → AddEnv D
    → Daemon D
    → PackageInfo
    → Result ManagerError (Unit {0}) × World D
    → ℕ × Daemon D
unfolding announce_stored
after_add env d info (err e, w) = (
  500,
  record d {
    world = record w {
      files = if env.remove_works then delete bytes_discrete info.file_path w.files else w.files;
    };
  },
)
after_add env d info (ok u, w) =
    (201, count_added (announce_stored env info (record d { world = w })))

-- The part of the handler that changes the daemon.
unfoldable pub store_package :
    {D : Type 0} → AddEnv D → AddRequest D → Package → Daemon D → ℕ × Daemon D
unfolding put_file after_add
store_package env req pkg d =
    let path = env.join d.world.manager.storage_dir req.filename in
    let info = info_of env.prims pkg env.now path in
    if env.write_works
    then after_add env d info (
        add_package env.yaml env.save_env
          (record { manager = d.world.manager; files = put_file path req.content d.world.files })
          info)
    else (
      500,
      record d {
        world = record {
          manager = d.world.manager;
          files = cut_off path env.partial d.world.files;
        };
      },
    )

-- `handlePackageAdd`.
unfoldable pub handle_package_add : {D : Type 0} → AddEnv D → AddRequest D → Daemon D → ℕ × Daemon D
unfolding accept store_package
handle_package_add env req d = elim (accept env req) [
  | err status ↦ (status, d)
  | ok pkg ↦ store_package env req pkg d
]
