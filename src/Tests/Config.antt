-- ===== src/Tests/Config.antt =====
-- pkg/daemon/config.go on the defaults.
use mathlib.Core.Option.{none, some}
use libreseed.Prelude.{◌≡◌, ◌++◌, [], refl, ok, signed_lt, if◌then◌else◌}
use libreseed.Text.{codes, bytes_eq}
use libreseed.Daemon.Config.{DaemonConfig, default_config, validate_daemon_config}
use libreseed.Daemon.Config.Environment.{
  ConfigEnv, absent, load_or_create_config, load_from_env, expand_home, settings, apply_settings,
}
use libreseed.Daemon.Config.Environment.Tiers.{IsLoaded, load_or_create_config-IsLoaded}

abbrev defaults : DaemonConfig
defaults = default_config (codes "/home/u/.local/share/libreseed/storage")

defaults_valid : validate_daemon_config defaults ≡ ok tt
unfolding validate_daemon_config signed_lt bytes_eq
defaults_valid = refl

-- No file, and an address in the environment.
abbrev env : ConfigEnv
env = record {
  home = some (codes "/home/u");
  join = λ a b. a ++ codes "/" ++ b;
  config_file = λ _. absent;
  default_storage = defaults.storage_dir;
  parse_duration = λ _. none;
  getenv = λ name. if bytes_eq name (codes "LIBRESEED_LISTEN_ADDR") then codes "0.0.0.0:80" else [];
}

abbrev loaded : DaemonConfig
loaded = record defaults { listen_addr = codes "0.0.0.0:80" }

config_loads : load_or_create_config env (codes "~/c.yaml") ≡ ok loaded
unfolding load_or_create_config load_from_env expand_home settings apply_settings
    validate_daemon_config signed_lt bytes_eq
config_loads = refl

load_or_create_config-IsLoaded_example : IsLoaded env (codes "~/c.yaml") loaded
load_or_create_config-IsLoaded_example =
    load_or_create_config-IsLoaded env (codes "~/c.yaml") loaded config_loads
