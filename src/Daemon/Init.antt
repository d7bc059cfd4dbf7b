-- ===== src/Daemon/Init.antt =====
-- pkg/daemon/daemon.go, `New`, with `NewKeyManager` of pkg/crypto/keymanager.go. The functions of
-- path/filepath, the directories, the yaml library and the system calls are parameters.
pub mod Reads
pub mod Restarts
use libreseed.Prelude.{
  ℕ, Bool, true, false, not, Option, none, some, List, [], ◌∷◌, is_empty, if◌then◌else◌, Result, ok,
  err, fail_if, wrap_err, ◌>>◌, ◌>>=◌,
}
use libreseed.Text.{Bytes, codes}
use libreseed.Storage.{Files}
use libreseed.Crypto.KeyManager.{KeyManager, KeyEnv, KeyFileError, KeyResult, ensure_keys_exist}
use libreseed.Dht.Client.{ClientConfig, new_client, zero_id}
use libreseed.Daemon.Config.{DaemonConfig, ConfigError, default_config, validate_daemon_config}
use libreseed.Daemon.Packages.{PackageManager, Yaml, LoadError, new_package_manager, load_state}
use libreseed.Daemon.Statistics.{DaemonStatistics, new_daemon_statistics}
use libreseed.Daemon.Lifecycle.{Daemon, new_daemon}

-- `storage_made` and `packages_made` say whether `os.MkdirAll` works, `system` is what the key
-- manager meets.
pub record InitEnv : Type 0 where
  pub default_storage : Bytes
  pub storage_made : Bool
  pub packages_made : Bool
  pub join : List Bytes → Bytes
  pub dir : Bytes → Bytes
  pub clean : Bytes → Bytes
  pub user_config_dir : Option Bytes
  pub system : KeyEnv
  pub yaml : Yaml Bytes
  pub meta_readable : Bool
  pub now : ℕ

pub data InitError : Type 0 where
  invalid_configuration : ConfigError → InitError
  no_storage_dir no_packages_dir no_key_manager : InitError
  no_keys : KeyFileError → InitError
  no_package_state : LoadError → InitError

-- What `New` builds: the daemon, with the parts that its life cycle does not change.
pub record Built : Type 0 where
  pub config : DaemonConfig
  pub key_manager : KeyManager
  pub stats : DaemonStatistics
  pub daemon : Daemon
  pub addr : Bytes

abbrev pub key_env : InitEnv → KeyEnv
key_env env = record env.system { join = λ a b. env.join (a ∷ b ∷ []) }

abbrev pub base_dir : InitEnv → DaemonConfig → Bytes
base_dir env config = env.dir config.storage_dir

abbrev pub keys_dir : InitEnv → DaemonConfig → Bytes
keys_dir env config = env.join (base_dir env config ∷ codes "keys" ∷ [])

-- The database of a configuration, before it is loaded.
abbrev pub empty_manager : InitEnv → DaemonConfig → PackageManager
empty_manager env config =
    new_package_manager (env.join (base_dir env config ∷ codes "packages" ∷ []))
      (env.join (base_dir env config ∷ codes "packages.yaml" ∷ []))

abbrev pub without_keys : Bytes → KeyManager
without_keys dir = record { keys_dir = dir; private_key = none; public_key = none }

-- `NewKeyManager`.
unfoldable pub new_key_manager : InitEnv → Bytes → Option KeyManager
new_key_manager env dir =
    if is_empty dir
    then elim env.user_config_dir [
      | none ↦ none
      | some user_dir ↦ some (
          without_keys (
            env.clean
              (env.join (user_dir ∷ codes ".." ∷ codes "share" ∷ codes "libreseed/keys" ∷ []))))
    ]
    else some (without_keys (env.clean dir))

abbrev pub or_init_error : {A : Type 0} → Option A → InitError → Result InitError A
or_init_error none e = err e
or_init_error (some a) e = ok a

-- `New` up to the keys.
unfoldable pub prepare : InitEnv → DaemonConfig → Result InitError KeyManager
unfolding new_key_manager
prepare env config = do
  wrap_err invalid_configuration (validate_daemon_config config)
  fail_if (not env.storage_made) no_storage_dir
  fail_if (not env.packages_made) no_packages_dir
  or_init_error (new_key_manager env (keys_dir env config)) no_key_manager

-- The configuration of the client: its other fields are zero.
abbrev pub client_config : DaemonConfig → ClientConfig
client_config config = record {
  port = config.dht_port;
  bootstrap_nodes = config.dht_bootstrap_nodes;
  node_id = zero_id;
  announce_interval = 0;
}

abbrev pub build : InitEnv → DaemonConfig → KeyManager → PackageManager → Built
build env config km pm = record {
  config = config;
  key_manager = km;
  stats = new_daemon_statistics env.now;
  daemon = new_daemon config.enable_dht pm (new_client (some (client_config config))) env.now;
  addr = config.listen_addr;
}

-- `New` after the keys: the database is loaded and the rest is built.
unfoldable pub after_keys :
    InitEnv → DaemonConfig → KeyResult → Result InitError Built × Files Bytes
after_keys env config keys = (
  (do
    wrap_err no_keys keys.result
    pm ←
        wrap_err no_package_state
          (load_state env.yaml env.meta_readable (empty_manager env config) keys.files)
    ok (build env config keys.manager pm)),
  keys.files,
)

unfoldable pub new_with :
    InitEnv → DaemonConfig → Files Bytes → Result InitError Built × Files Bytes
unfolding prepare after_keys
new_with env config files = elim (prepare env config) [
  | err e ↦ (err e, files)
  | ok km ↦ after_keys env config (ensure_keys_exist km (key_env env) files)
]

abbrev pub or_default_config : InitEnv → Option DaemonConfig → DaemonConfig
or_default_config env none = default_config env.default_storage
or_default_config env (some config) = config

-- `New`: a nil configuration is the default one.
unfoldable pub new :
    InitEnv → Option DaemonConfig → Files Bytes → Result InitError Built × Files Bytes
unfolding new_with
new env config files = new_with env (or_default_config env config) files
