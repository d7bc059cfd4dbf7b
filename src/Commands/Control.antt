-- ===== src/Commands/Control.antt =====
-- `lbs start`, `lbs stop` and `lbs restart`: cmd/lbs/start.go, stop.go, restart.go, and `getAPIAddr`
-- of main.go. What the rest of the system does during a sleep, at the start of a process and at a
-- request is a parameter; the output is not modelled.
pub mod Waiting
pub mod Commanding
use libreseed.Prelude.{
  ℕ, zero, suc, ◌-◌, Bool, true, false, not, Option, none, some, List, [], ◌∷◌, ◌++◌, is_empty, ltb,
  ◌==◌, if◌then◌else◌, Result, ok, err,
}
use libreseed.Text.{Bytes, codes}
use libreseed.Commands.PidFile
use libreseed.Commands.PidFile.{Processes}
use libreseed.Commands.Options.{config_argument, daemon_arguments}

-- The PID file, the processes as `isRunning` sees them, and the clock.
pub record World : Type 0 where
  pub file : Option Bytes
  pub sys : Processes
  pub now : ℕ

-- `look_path` is the answer of `exec.LookPath`, `executable` of `os.Executable`; `beside` is the
-- name of lbsd beside a program; `sleep` is what happens in half a second of sleep; `spawn` starts
-- a program with its arguments; `post` sends a POST request to an address, and is given the status.
pub record System : Type 0 where
  pub look_path : Option Bytes
  pub executable : Option Bytes
  pub beside : Bytes → Bytes
  pub exists : Bytes → Bool
  pub log_dir_made : Bool
  pub log_opened : Bool
  pub env_addr : Bytes
  pub request_made : Bytes → Bool
  pub sleep : World → World
  pub spawn : Bytes → List Bytes → World → Option World
  pub post : Bytes → World → Option (ℕ × World)

-- `isRunning`, with what it does to the PID file.
unfoldable pub check : World → Bool × World
check w =
    let (running, file) = PidFile.is_running w.sys w.file in (running, record w { file = file })

pub data FindError : Type 0 where
  no_executable not_found : FindError

-- `findLbsdBinary`.
unfoldable pub find_lbsd_binary : System → Result FindError Bytes
find_lbsd_binary env = elim env.look_path [
  | some path ↦ ok path
  | none ↦ elim env.executable [
    | none ↦ err no_executable
    | some lbs_path ↦
        if env.exists (env.beside lbs_path) then ok (env.beside lbs_path) else err not_found
  ]
]

pub data StartError : Type 0 where
  already_running no_log_dir no_log_file not_started not_initialized : StartError
  no_binary : FindError → StartError

-- The loop of `startCommand`, with the attempts that are left.
unfoldable pub wait_started : System → ℕ → World → Bool × World
wait_started env zero w = (false, w)
wait_started env (suc attempts) w =
    let looked = check (env.sleep w) in
    let rest = wait_started env attempts looked.1 in if looked.0 then (true, looked.1) else rest

-- `startCommand` after `cmd.Start`.
unfoldable pub after_spawn : System → Option World → World → Result StartError (Unit {0}) × World
unfolding wait_started
after_spawn env none w = (err not_started, w)
after_spawn env (some w') w =
    let (started, last) = wait_started env 6 w' in
    (if started then ok tt else err not_initialized, last)

-- `startCommand` once no daemon is running.
unfoldable pub launch : System → List Bytes → World → Result StartError (Unit {0}) × World
unfolding after_spawn
launch env args w = elim (find_lbsd_binary env) [
  | err e ↦ (err (no_binary e), w)
  | ok path ↦
      if not env.log_dir_made
      then (err no_log_dir, w)
      else if not env.log_opened
      then (err no_log_file, w)
      else after_spawn env (env.spawn path (daemon_arguments (config_argument [] args)) w) w
]

-- `startCommand`.
unfoldable pub start_command : System → List Bytes → World → Result StartError (Unit {0}) × World
unfolding launch
start_command env args w =
    let (running, w') = check w in if running then (err already_running, w') else launch env args w'

-- `getAPIAddr`.
unfoldable pub get_api_addr : Bytes → Bytes
get_api_addr addr = if is_empty addr then codes "http://127.0.0.1:9091" else codes "http://" ++ addr

pub data StopError : Type 0 where
  not_running no_request no_connection timed_out : StopError
  refused : ℕ → StopError

-- Thirty seconds.
abbrev pub max_wait : ℕ
max_wait = 30000000000

-- The loop of `stopCommand`; `none` means that the fuel ran out.
unfoldable pub wait_stopped : System → ℕ → ℕ → World → Option (Result StopError (Unit {0}) × World)
wait_stopped env zero start w = none
wait_stopped env (suc fuel) start w =
    let looked = check w in
    let rest = wait_stopped env fuel start (env.sleep looked.1) in
    if not (ltb (w.now - start) max_wait)
    then some (err timed_out, w)
    else if not looked.0
    then some (ok tt, looked.1)
    else rest

-- `stopCommand` after the request.
unfoldable pub after_post :
    System → World → Option (ℕ × World) → Option (Result StopError (Unit {0}) × World)
unfolding wait_stopped
after_post env w none = some (err no_connection, w)
after_post env w (some (status, w')) =
    if not (status == 200) then some (err (refused status), w') else wait_stopped env 61 w'.now w'

-- `stopCommand`.
unfoldable pub stop_command : System → World → Option (Result StopError (Unit {0}) × World)
unfolding after_post
stop_command env w =
    let (running, w') = check w in
    let url = get_api_addr env.env_addr ++ codes "/shutdown" in
    if not running
    then some (err not_running, w')
    else if not (env.request_made url)
    then some (err no_request, w')
    else after_post env w' (env.post url w')

pub data RestartError : Type 0 where
  not_stopped : StopError → RestartError
  not_restarted : StartError → RestartError

abbrev pub as_restart :
    Result StartError (Unit {0}) × World → Result RestartError (Unit {0}) × World
as_restart (ok u, w) = (ok u, w)
as_restart (err e, w) = (err (not_restarted e), w)

abbrev pub then_start :
    System
    → List Bytes
    → Option (Result StopError (Unit {0}) × World)
    → Option (Result RestartError (Unit {0}) × World)
then_start env args none = none
then_start env args (some (err e, w)) = some (err (not_stopped e), w)
then_start env args (some (ok u, w)) = some (as_restart (start_command env args w))

-- `restartCommand`: the errors of both of its starts are `not_restarted`.
unfoldable pub restart_command :
    System → List Bytes → World → Option (Result RestartError (Unit {0}) × World)
unfolding start_command stop_command
restart_command env args w =
    let (running, w') = check w in
    if running
    then then_start env args (stop_command env w')
    else some (as_restart (start_command env args w'))
