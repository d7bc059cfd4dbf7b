-- ===== src/Daemon/Config/Environment.antt =====
-- pkg/daemon/config.go, `LoadFromEnv`, and the function `loadOrCreateConfig` of cmd/lbsd/main.go.
-- time.ParseDuration is a parameter, and a variable that is not set is empty.
pub mod Tiers
use libreseed.Prelude.{
  ℕ, ◌+◌, Bool, true, false, ◌&&◌, ◌||◌, Option, none, some, List, [], ◌∷◌, map, drop, take, length,
  ltb, leb, ◌==◌, is_empty, if◌then◌else◌, Result, ok, err, wrap_err, ◌>>=◌, ◌>>◌,
}
use libreseed.Text.{Bytes, codes, bytes_eq}
use libreseed.Text.Decimal.{parse_int}
use libreseed.Text.Trim.{trim_space}
use libreseed.Daemon.Config.{DaemonConfig, ConfigError, default_config, validate_daemon_config}

pub data EnvError : Type 0 where
  bad_port bad_upload_rate bad_download_rate bad_connections bad_enable_dht bad_enable_pex
        bad_interval :
      EnvError

-- strconv.ParseBool.
abbrev pub is_true : Bytes → Bool
is_true s =
    bytes_eq s (codes "1")
    || bytes_eq s (codes "t")
    || bytes_eq s (codes "T")
    || bytes_eq s (codes "true")
    || bytes_eq s (codes "TRUE")
    || bytes_eq s (codes "True")

abbrev pub is_false : Bytes → Bool
is_false s =
    bytes_eq s (codes "0")
    || bytes_eq s (codes "f")
    || bytes_eq s (codes "F")
    || bytes_eq s (codes "false")
    || bytes_eq s (codes "FALSE")
    || bytes_eq s (codes "False")

unfoldable pub parse_bool : Bytes → Option Bool
parse_bool s = if is_true s then some true else if is_false s then some false else none

-- strings.ToLower on ASCII.
unfoldable pub to_lower : Bytes → Bytes
to_lower = map (λ c. if leb 65 c && leb c 90 then c + 32 else c)

abbrev pub with_first : ℕ → List Bytes → List Bytes
with_first c [] = (c ∷ []) ∷ []
with_first c (part ∷ parts) = (c ∷ part) ∷ parts

-- strings.Split at the commas.
unfoldable pub split_commas : Bytes → List Bytes
split_commas [] = [] ∷ []
split_commas (c ∷ s) =
    let parts = split_commas s in if c == b',' then [] ∷ parts else with_first c parts

abbrev pub set_parsed {ℓ} :
    {A : Type ℓ} → Option A → EnvError → (A → DaemonConfig) → Result EnvError DaemonConfig
set_parsed none e k = err e
set_parsed (some a) e k = ok (k a)

-- What a variable does to the configuration when it is not empty.
abbrev pub Setter : Type 0
Setter = Bytes → DaemonConfig → Result EnvError DaemonConfig

-- A variable with its value.
pub record Setting : Type 0 where
  pub value : Bytes
  pub set : Setter

abbrev pub setting : Bytes → Setter → Setting
setting value set = record { value = value; set = set }

-- The variables in the order in which `LoadFromEnv` reads them.
unfoldable pub settings : (Bytes → Option ℕ) → (Bytes → Bytes) → List Setting
settings parse_duration getenv =
    setting (getenv (codes "LIBRESEED_LISTEN_ADDR")) (λ v c. ok (record c { listen_addr = v }))
    ∷ setting (getenv (codes "LIBRESEED_STORAGE_DIR")) (λ v c. ok (record c { storage_dir = v }))
    ∷ setting (getenv (codes "LIBRESEED_DHT_PORT"))
        (λ v c. set_parsed (parse_int v) bad_port λ n. record c { dht_port = n })
    ∷ setting (getenv (codes "LIBRESEED_DHT_BOOTSTRAP_NODES"))
        (λ v c. ok (record c { dht_bootstrap_nodes = map trim_space (split_commas v) }))
    ∷ setting (getenv (codes "LIBRESEED_MAX_UPLOAD_RATE"))
        (λ v c. set_parsed (parse_int v) bad_upload_rate λ n. record c { max_upload_rate = n })
    ∷ setting (getenv (codes "LIBRESEED_MAX_DOWNLOAD_RATE"))
        (λ v c. set_parsed (parse_int v) bad_download_rate λ n. record c { max_download_rate = n })
    ∷ setting (getenv (codes "LIBRESEED_MAX_CONNECTIONS"))
        (λ v c. set_parsed (parse_int v) bad_connections λ n. record c { max_connections = n })
    ∷ setting (getenv (codes "LIBRESEED_ENABLE_DHT"))
        (λ v c. set_parsed (parse_bool v) bad_enable_dht λ b. record c { enable_dht = b })
    ∷ setting (getenv (codes "LIBRESEED_ENABLE_PEX"))
        (λ v c. set_parsed (parse_bool v) bad_enable_pex λ b. record c { enable_pex = b })
    ∷ setting (getenv (codes "LIBRESEED_ANNOUNCE_INTERVAL"))
        (λ v c. set_parsed (parse_duration v) bad_interval λ n. record c { announce_interval = n })
    ∷ setting (getenv (codes "LIBRESEED_LOG_LEVEL"))
        (λ v c. ok (record c { log_level = to_lower v }))
    ∷ []

unfoldable pub apply_settings : List Setting → DaemonConfig → Result EnvError DaemonConfig
apply_settings [] c = ok c
apply_settings (s ∷ rest) c =
    (if is_empty s.value then ok c else s.set s.value c) >>= λ c'. apply_settings rest c'

-- `LoadFromEnv`.
unfoldable pub load_from_env :
    (Bytes → Option ℕ) → (Bytes → Bytes) → DaemonConfig → Result EnvError DaemonConfig
unfolding settings apply_settings parse_bool to_lower split_commas
load_from_env parse_duration getenv c = apply_settings (settings parse_duration getenv) c

pub data ConfigLoadError : Type 0 where
  no_home not_checked not_loaded : ConfigLoadError
  bad_environment : EnvError → ConfigLoadError
  invalid_config : ConfigError → ConfigLoadError

-- What is at a path: nothing, a file that `LoadConfig` reads or does not, or an error of `Stat`.
pub data ConfigFile : Type 0 where
  absent inaccessible unreadable : ConfigFile
  readable : DaemonConfig → ConfigFile

-- What the program asks the system. `default_storage` is the directory of `DefaultConfig`.
pub record ConfigEnv : Type 0 where
  pub home : Option Bytes
  pub join : Bytes → Bytes → Bytes
  pub config_file : Bytes → ConfigFile
  pub default_storage : Bytes
  pub parse_duration : Bytes → Option ℕ
  pub getenv : Bytes → Bytes

-- The path with the home directory for "~/".
unfoldable pub expand_home : ConfigEnv → Bytes → Result ConfigLoadError Bytes
expand_home env path =
    if leb 2 (length path) && bytes_eq (take 2 path) (codes "~/")
    then elim env.home [ none ↦ err no_home | some home ↦ ok (env.join home (drop 2 path)) ]
    else ok path

abbrev pub file_tier : DaemonConfig → ConfigFile → Result ConfigLoadError DaemonConfig
file_tier default absent = ok default
file_tier default inaccessible = err not_checked
file_tier default unreadable = err not_loaded
file_tier default (readable c) = ok c

-- `loadOrCreateConfig`.
unfoldable pub load_or_create_config : ConfigEnv → Bytes → Result ConfigLoadError DaemonConfig
unfolding expand_home load_from_env
load_or_create_config env config_path = do
  path ← expand_home env config_path
  base ← file_tier (default_config env.default_storage) (env.config_file path)
  c ← wrap_err bad_environment (load_from_env env.parse_duration env.getenv base)
  wrap_err invalid_config (validate_daemon_config c)
  ok c
