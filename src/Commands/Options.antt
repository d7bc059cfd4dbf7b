-- ===== src/Commands/Options.antt =====
-- The command lines: the loop over the arguments of `startCommand` in cmd/lbs/start.go, the
-- arguments that it gives to the daemon, and the loop of `main` in cmd/lbsd/main.go over them.
use libreseed.Prelude.{
  ◌≡◌, refl, Bool, true, false, ◌||◌, Option, none, some, List, [], ◌∷◌, is_empty, if◌then◌else◌,
  Bool-cases, inl, inr,
}
use libreseed.Text.{Bytes, codes, bytes_eq}

-- The loop of `startCommand`: the path so far, and the arguments that are left.
unfoldable pub config_argument : Bytes → List Bytes → Bytes
config_argument path [] = path
config_argument path (a ∷ []) = path
config_argument path (a ∷ b ∷ rest) =
    let taken = config_argument b rest in
    let skipped = config_argument path (b ∷ rest) in
    if bytes_eq a (codes "--config") then taken else skipped

-- The arguments of the daemon.
unfoldable pub daemon_arguments : Bytes → List Bytes
daemon_arguments path = if is_empty path then [] else codes "--config" ∷ path ∷ []

pub record DaemonOptions : Type 0 where
  pub config_path : Bytes
  pub show_version : Bool
  pub show_help : Bool

abbrev pub is_version : Bytes → Bool
is_version a = bytes_eq a (codes "--version") || bytes_eq a (codes "-v")

abbrev pub is_help : Bytes → Bool
is_help a = bytes_eq a (codes "--help") || bytes_eq a (codes "-h")

-- The loop of `main`: `none` ends the program with status 1.
unfoldable pub parse_options : DaemonOptions → List Bytes → Option DaemonOptions
parse_options o [] = some o
parse_options o (a ∷ []) =
    if bytes_eq a (codes "--config")
    then none
    else if is_version a
    then some (record o { show_version = true })
    else if is_help a
    then some (record o { show_help = true })
    else none
parse_options o (a ∷ b ∷ rest) =
    let taken = parse_options (record o { config_path = b }) rest in
    let version = parse_options (record o { show_version = true }) (b ∷ rest) in
    let help = parse_options (record o { show_help = true }) (b ∷ rest) in
    if bytes_eq a (codes "--config")
    then taken
    else if is_version a
    then version
    else if is_help a
    then help
    else none

-- The options of a daemon that runs with a configuration.
abbrev pub run_options : Bytes → DaemonOptions
run_options path = record { config_path = path; show_version = false; show_help = false }

-- A daemon that `lbs start` starts, with whatever arguments, accepts its command line and runs
-- with the path that the client has read from its own, or with its default if that is empty.
pub parse_options-daemon_arguments :
    (default_path : Bytes) (args : List Bytes)
    → let path = config_argument [] args in
      parse_options (run_options default_path) (daemon_arguments path)
      ≡ some (run_options (if is_empty path then default_path else path))
unfolding parse_options daemon_arguments bytes_eq
parse_options-daemon_arguments default_path args =
    elim (Bool-cases (is_empty (config_argument [] args))) [ inl e ↦ rw e refl | inr e ↦ rw e refl ]
