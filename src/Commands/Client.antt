-- ===== src/Commands/Client.antt =====
-- `lbs status` and `lbs stats`, and the choice of a command: status.go, stats.go and `main` of main.go
-- in cmd/lbs. The output of `status` is a value.
pub mod Watching
use libreseed.Prelude.{
  ℕ, ◌≡◌, ◌≢◌, refl, Bool, true, false, Option, none, some, List, [], ◌∷◌, ◌++◌, ◌==◌,
  if◌then◌else◌, Result, ok, err, arith,
}
use libreseed.Text.{Bytes, codes, bytes_discrete}
use libreseed.GoMap.{lookup}
use libreseed.Commands.Display.{StatsResponse}
use libreseed.Commands.PidFile.{Processes, is_running, get_daemon_addr}
use libreseed.Commands.Requests.{
  Answer, Http, RequestError, no_connection, bad_status, not_parsed, answered,
}

-- How both commands read a reply: the status, and then the decoding of the body.
unfoldable pub read_stats :
    {B : Type 0} → (B → Option StatsResponse) → Answer B → Result RequestError StatsResponse
read_stats parse answer =
    if answer.status == 200
    then elim answer.body [
      | none ↦ err not_parsed
      | some body ↦ elim (parse body) [ none ↦ err not_parsed | some stats ↦ ok stats ]
    ]
    else err (bad_status answer.status)

-- `client.Get` of `/stats`.
unfoldable pub fetch_stats :
    {B S : Type 0}
    → Http B S
    → (B → Option StatsResponse)
    → B
    → Bytes
    → S
    → Result RequestError StatsResponse × S
fetch_stats http parse empty addr s =
    let url = addr ++ codes "/stats" in
    if http.request_made url
    then answered (read_stats parse) (http.send (codes "GET") url empty s)
    else (err no_connection, s)

-- `statsCommand`, with the value of LIBRESEED_LISTEN_ADDR and the PID file.
unfoldable pub stats_command :
    {B S : Type 0}
    → Http B S
    → (B → Option StatsResponse)
    → B
    → Processes
    → Bytes
    → Option Bytes
    → S
    → Result RequestError StatsResponse × S
stats_command http parse empty sys env_addr file s =
    fetch_stats http parse empty (get_daemon_addr sys.readable env_addr file) s

-- What `statusCommand` prints.
pub data Status : Type 0 where
  stopped unknown unavailable : Status
  error_status : ℕ → Status
  running : StatsResponse → Status

abbrev pub status_of : Result RequestError StatsResponse → Status
status_of (ok stats) = running stats
status_of (err (bad_status code)) = error_status code
status_of (err not_parsed) = unavailable
status_of (err _) = unknown

-- `statusCommand`: what it prints, the PID file after `isRunning`, and the server.
unfoldable pub status_command :
    {B S : Type 0}
    → Http B S
    → (B → Option StatsResponse)
    → B
    → Processes
    → Bytes
    → Option Bytes
    → S
    → Status × Option Bytes × S
status_command http parse empty sys env_addr file s =
    let (runs, left) = is_running sys file in
    if runs
    then (let (r, after) =
          fetch_stats http parse empty (get_daemon_addr sys.readable env_addr left) s in
        (status_of r, left, after))
    else (stopped, left, s)

-- The cases of the switch in `main`.
pub data Command : Type 0 where
  start stop status restart stats add list remove help version : Command

abbrev pub cases : List (Bytes × Command)
cases =
    (codes "start", start)
    ∷ (codes "stop", stop)
    ∷ (codes "status", status)
    ∷ (codes "restart", restart)
    ∷ (codes "stats", stats)
    ∷ (codes "add", add)
    ∷ (codes "list", list)
    ∷ (codes "remove", remove)
    ∷ (codes "help", help)
    ∷ (codes "-h", help)
    ∷ (codes "--help", help)
    ∷ (codes "version", version)
    ∷ (codes "--version", version)
    ∷ (codes "-v", version)
    ∷ []

-- The commands, over a state: whether the error is nil, and the state after.
abbrev pub Commands : Type 0 → Type 0
Commands S = Command → List Bytes → S → Bool × S

abbrev pub exit_of : {S : Type 0} → Bool × S → ℕ × S
exit_of (done, s) = (if done then 0 else 1, s)

-- The body of a case of the switch.
abbrev pub run_case : {S : Type 0} → Commands S → List Bytes → S → Option Command → ℕ × S
run_case commands args s none = (1, s)
run_case commands args s (some help) = (0, s)
run_case commands args s (some version) = (0, s)
run_case commands args s (some command) = exit_of (commands command args s)

-- `main` after the name of the program: the exit code, and the state.
unfoldable pub lbs : {S : Type 0} → Commands S → List Bytes → S → ℕ × S
lbs commands [] s = (1, s)
lbs commands (name ∷ args) s = run_case commands args s (lookup bytes_discrete name cases)

-- What every command keeps, `lbs` keeps.
pub lbs-keeps :
    {S : Type 0} (P : S → Type 0) (commands : Commands S)
    → ((c : Command) (args : List Bytes) (s : S) → P s → P (commands c args s).1)
    → (args : List Bytes) (s : S) → P s
    → P (lbs commands args s).1
unfolding lbs
lbs-keeps P commands keep [] s p = p
lbs-keeps P commands keep (name ∷ args) s p = case-keeps (lookup bytes_discrete name cases)
  where
    case-keeps : (o : Option Command) → P (run_case commands args s o).1
    case-keeps none = p
    case-keeps (some help) = p
    case-keeps (some version) = p
    case-keeps (some start) = keep start args s p
    case-keeps (some stop) = keep stop args s p
    case-keeps (some status) = keep status args s p
    case-keeps (some restart) = keep restart args s p
    case-keeps (some stats) = keep stats args s p
    case-keeps (some add) = keep add args s p
    case-keeps (some list) = keep list args s p
    case-keeps (some remove) = keep remove args s p
