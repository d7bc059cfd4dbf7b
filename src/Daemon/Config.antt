-- ===== src/Daemon/Config.antt =====
-- pkg/daemon/config.go: the configuration, its defaults and `Validate`. Ports, rates, counts and
-- durations are bit patterns of int and int64.
pub mod Environment
use libreseed.Prelude.{
  ℕ, ◌≡◌, ◌≢◌, ◌≤◌, ◌<◌, ◌%◌, ◌^◌, ◌*◌, ◌⊎◌, ◌↔◌, Bool, true, false, not, ◌&&◌, ◌||◌, List, [], ◌∷◌,
  arith, is_empty, word, signed_lt, Result, ok, fail_if, ◌>>◌,
}
use libreseed.Text.{Bytes, codes, bytes_eq, bytes_eq_iff}

pub record DaemonConfig : Type 0 where
  pub listen_addr : Bytes
  pub storage_dir : Bytes
  pub dht_port : ℕ
  pub dht_bootstrap_nodes : List Bytes
  pub max_upload_rate : ℕ
  pub max_download_rate : ℕ
  pub max_connections : ℕ
  pub enable_dht : Bool
  pub enable_pex : Bool
  pub announce_interval : ℕ
  pub log_level : Bytes

-- A minute in nanoseconds.
abbrev pub minute : ℕ
minute = 60000000000

-- `DefaultConfig`, with the storage directory that `filepath.Join` makes of the home directory.
abbrev pub default_config : Bytes → DaemonConfig
default_config storage_dir = record {
  listen_addr = codes "127.0.0.1:9091";
  storage_dir = storage_dir;
  dht_port = 6881;
  dht_bootstrap_nodes =
      codes "router.bittorrent.com:6881"
      ∷ codes "dht.transmissionbt.com:2710"
      ∷ codes "router.utorrent.com:6881"
      ∷ [];
  max_upload_rate = 0;
  max_download_rate = 0;
  max_connections = 100;
  enable_dht = true;
  enable_pex = true;
  announce_interval = 30 * minute;
  log_level = codes "info";
}

pub data ConfigError : Type 0 where
  listen_addr_empty storage_dir_empty bad_dht_port no_bootstrap_nodes negative_upload_rate
        negative_download_rate too_few_connections short_interval bad_log_level :
      ConfigError

-- The keys of `validLogLevels`.
abbrev pub is_log_level : Bytes → Bool
is_log_level s =
    bytes_eq s (codes "debug")
    || bytes_eq s (codes "info")
    || bytes_eq s (codes "warn")
    || bytes_eq s (codes "error")

-- `DaemonConfig.Validate`.
unfoldable pub validate_daemon_config : DaemonConfig → Result ConfigError (Unit {0})
validate_daemon_config c = do
  fail_if (is_empty c.listen_addr) listen_addr_empty
  fail_if (is_empty c.storage_dir) storage_dir_empty
  fail_if (signed_lt c.dht_port 1024 || signed_lt 65535 c.dht_port) bad_dht_port
  fail_if (c.enable_dht && is_empty c.dht_bootstrap_nodes) no_bootstrap_nodes
  fail_if (signed_lt c.max_upload_rate 0) negative_upload_rate
  fail_if (signed_lt c.max_download_rate 0) negative_download_rate
  fail_if (signed_lt c.max_connections 1) too_few_connections
  fail_if (signed_lt c.announce_interval minute) short_interval
  fail_if (not (is_log_level c.log_level)) bad_log_level

-- An int64 in a range that lies within the positive ones.
abbrev pub IsWithin : ℕ → ℕ → ℕ → Type 0
IsWithin low high n = (low ≤ n % word) × (n % word ≤ high)

-- What an accepted configuration is.
pub record IsConfig (c : DaemonConfig) : Type 0 where
  pub address : c.listen_addr ≢ []
  pub storage : c.storage_dir ≢ []
  pub port : IsWithin 1024 65535 c.dht_port
  pub nodes : (c.enable_dht ≡ false) ⊎ (c.dht_bootstrap_nodes ≢ [])
  pub upload : c.max_upload_rate % word < 2 ^ 63
  pub download : c.max_download_rate % word < 2 ^ 63
  pub connections : (1 ≤ c.max_connections % word) × (c.max_connections % word < 2 ^ 63)
  pub interval : (minute ≤ c.announce_interval % word) × (c.announce_interval % word < 2 ^ 63)
  pub level :
      (c.log_level ≡ codes "debug")
      ⊎ (c.log_level ≡ codes "info")
      ⊎ (c.log_level ≡ codes "warn")
      ⊎ (c.log_level ≡ codes "error")

not_lt_iff :
    (low n : ℕ)
    → low < 2 ^ 63
    → (signed_lt n low ≡ false) ↔ ((low ≤ n % word) × (n % word < 2 ^ 63))
unfolding signed_lt
not_lt_iff low n h = (λ e. ground arith, λ e. ground arith)

port_iff : (n : ℕ) → ((signed_lt n 1024 || signed_lt 65535 n) ≡ false) ↔ IsWithin 1024 65535 n
unfolding signed_lt
port_iff n = (λ e. ground arith, λ e. ground arith)

level_iff :
    (s : Bytes)
    → (is_log_level s ≡ true)
      ↔ ((s ≡ codes "debug") ⊎ (s ≡ codes "info") ⊎ (s ≡ codes "warn") ⊎ (s ≡ codes "error"))
level_iff s = (
  λ e. ground (
    arith,
    bytes_eq_iff s (codes "debug"),
    bytes_eq_iff s (codes "info"),
    bytes_eq_iff s (codes "warn"),
    bytes_eq_iff s (codes "error"),
  ),
  λ e. ground (
    arith,
    bytes_eq_iff s (codes "debug"),
    bytes_eq_iff s (codes "info"),
    bytes_eq_iff s (codes "warn"),
    bytes_eq_iff s (codes "error"),
  ),
)

sound : (c : DaemonConfig) → validate_daemon_config c ≡ ok tt → IsConfig c
unfolding validate_daemon_config
sound c h = ground (
  arith,
  (port_iff c.dht_port).0,
  (not_lt_iff 0 c.max_upload_rate (omega arith)).0,
  (not_lt_iff 0 c.max_download_rate (omega arith)).0,
  (not_lt_iff 1 c.max_connections (omega arith)).0,
  (not_lt_iff minute c.announce_interval (omega arith)).0,
  (level_iff c.log_level).0,
)

complete : (c : DaemonConfig) → IsConfig c → validate_daemon_config c ≡ ok tt
unfolding validate_daemon_config
complete c v = ground (
  arith,
  (port_iff c.dht_port).1 v.port,
  (not_lt_iff 0 c.max_upload_rate (omega arith)).1 (omega arith, v.upload),
  (not_lt_iff 0 c.max_download_rate (omega arith)).1 (omega arith, v.download),
  (not_lt_iff 1 c.max_connections (omega arith)).1 v.connections,
  (not_lt_iff minute c.announce_interval (omega arith)).1 v.interval,
  (level_iff c.log_level).1 v.level,
)

-- `DaemonConfig.Validate` accepts exactly the configurations with an address and a storage
-- directory, a port from 1024 to 65535, a bootstrap node if the DHT is enabled, rates that are not
-- negative, at least one connection, an interval of at least a minute, and one of the four log
-- levels.
pub validate_daemon_config_iff :
    (c : DaemonConfig) → (validate_daemon_config c ≡ ok tt) ↔ IsConfig c
validate_daemon_config_iff c = (λ h. sound c h, λ v. complete c v)
