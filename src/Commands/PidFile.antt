-- ===== src/Commands/PidFile.antt =====
-- The PID file: `writePIDFile` of cmd/lbsd/main.go writes it, `isRunning` and `getDaemonAddr` of
-- cmd/lbs/start.go read it. A state is the contents of the file, `none` if it is not there.
pub mod Reading
use libreseed.Prelude.{
  ℕ, ◌≡◌, Bool, true, false, not, ◌||◌, Option, none, some, List, [], ◌∷◌, ◌++◌, is_empty,
  signed_lt, if◌then◌else◌,
}
use libreseed.Text.{Bytes, codes, bytes_eq}
use libreseed.Text.Decimal.{show_nat, parse_int}
use libreseed.Text.Trim.{trim_space, cut}

-- The line "PID:ADDRESS".
unfoldable pub pid_line : ℕ → Bytes → Bytes
pid_line pid listen_addr = (show_nat pid ++ b':' ∷ listen_addr) ++ 10 ∷ []

-- `writePIDFile`: whether the directory and the file can be written; a failed write leaves
-- `partial`.
unfoldable pub write_pid_file :
    Bool → Bool → Option Bytes → ℕ → Bytes → Option Bytes → Bool × Option Bytes
unfolding pid_line
write_pid_file dir_made written partial pid listen_addr file =
    if not dir_made
    then (false, file)
    else if not written
    then (false, partial)
    else (true, some (pid_line pid listen_addr))

-- `removePIDFile`, which ignores its error.
abbrev pub remove_pid_file : Bool → Option Bytes → Option Bytes
remove_pid_file removable file = if removable then none else file

-- What `isRunning` asks the system: whether the file can be read and removed, whether a process
-- is found and takes signal 0, and the base name that its link in /proc points to.
pub record Processes : Type 0 where
  pub readable : Bool
  pub removable : Bool
  pub find_process : ℕ → Bool
  pub signal_zero : ℕ → Bool
  pub exe_name : ℕ → Option Bytes

-- The text before the colon, or all of it.
unfoldable pub pid_text : Bytes → Bytes
pid_text content = elim (cut content) [ none ↦ content | some parts ↦ parts.0 ]

-- A number that `Atoi` reads and that is positive.
unfoldable pub parse_pid : Bytes → Option ℕ
parse_pid s = elim (parse_int s) [
  | none ↦ none
  | some pid ↦ if signed_lt 0 pid then some pid else none
]

-- Whether the process is there and, as far as /proc tells, the daemon.
unfoldable pub is_daemon : Processes → ℕ → Bool
is_daemon sys pid =
    if not (sys.find_process pid)
    then false
    else if not (sys.signal_zero pid)
    then false
    else elim (sys.exe_name pid) [ none ↦ true | some name ↦ bytes_eq name (codes "lbsd") ]

unfoldable pub pid_runs : Processes → Option ℕ → Bool
unfolding is_daemon
pid_runs sys none = false
pid_runs sys (some pid) = is_daemon sys pid

-- Whether the file can be read and names a running daemon.
unfoldable pub file_runs : Processes → Bytes → Bool
unfolding pid_text parse_pid pid_runs
file_runs sys text =
    if sys.readable then pid_runs sys (parse_pid (pid_text (trim_space text))) else false

-- `isRunning`: in each of the cases where it does not hold, a file that is there is removed.
unfoldable pub is_running : Processes → Option Bytes → Bool × Option Bytes
unfolding file_runs
is_running sys none = (false, none)
is_running sys (some text) =
    if file_runs sys text
    then (true, some text)
    else (false, remove_pid_file sys.removable (some text))

-- `getAPIAddrFromEnv`, with the value of LIBRESEED_LISTEN_ADDR.
unfoldable pub get_api_addr_from_env : Bytes → Bytes
get_api_addr_from_env addr =
    codes "http://" ++ (if is_empty addr then codes "localhost:8080" else addr)

abbrev pub or_env : Option (Bytes × Bytes) → Bytes → Bytes
or_env none env_addr = get_api_addr_from_env env_addr
or_env (some parts) env_addr =
    if is_empty parts.1 then get_api_addr_from_env env_addr else codes "http://" ++ parts.1

-- `getDaemonAddr`.
unfoldable pub get_daemon_addr : Bool → Bytes → Option Bytes → Bytes
unfolding get_api_addr_from_env
get_daemon_addr readable env_addr none = get_api_addr_from_env env_addr
get_daemon_addr readable env_addr (some text) =
    if readable then or_env (cut (trim_space text)) env_addr else get_api_addr_from_env env_addr
