-- ===== src/Commands/Control/Commanding.antt =====
-- What the three commands come to.
use libreseed.Prelude.{
  ℕ, ◌+◌, ◌≤◌, ◌<◌, ◌≡◌, ◌≢◌, ◌↔◌, inl, inr, refl, true, false, some, none, List, [], ◌++◌, arith,
  Bool-cases, Option-cases, Result-cases, Result, ok, err, Option, ◌==◌,
}
use libreseed.Text.{Bytes, codes}
use libreseed.Commands.Options.{config_argument, daemon_arguments}
use libreseed.Commands.Control.{
  World, System, check, find_lbsd_binary, StartError, already_running, after_spawn, launch,
  start_command, get_api_addr, StopError, not_running, no_request, no_connection, timed_out,
  refused, max_wait, after_post, stop_command, RestartError, not_restarted, not_stopped,
  restart_command, as_restart, then_start,
}
use libreseed.Commands.Control.Waiting.{
  look, after_looks, wait_started_iff, IsClock, IsWaited, check-again, wait_stopped_total,
}

-- The process that `lbs start` asks the system for.
abbrev pub spawned : System → List Bytes → Bytes → World → Option World
spawned env args path w = env.spawn path (daemon_arguments (config_argument [] args)) w

-- A start that succeeds.
pub record IsStarted (env : System) (args : List Bytes) (w : World) : Type 0 where
  pub idle : (check w).0 ≡ false
  pub path : Bytes
  pub found : find_lbsd_binary env ≡ ok path
  pub log_dir : env.log_dir_made ≡ true
  pub log_file : env.log_opened ≡ true
  pub spawn : World
  pub process : spawned env args path (check w).1 ≡ some spawn
  pub looks : ℕ
  pub few : looks < 6
  pub seen : (look env (after_looks env looks spawn)).0 ≡ true

IsStarted-of_ok :
    (env : System) (args : List Bytes) (w : World)
    → (start_command env args w).0 ≡ ok tt
    → IsStarted env args w
unfolding start_command launch after_spawn
IsStarted-of_ok env args w h = elim (Bool-cases (check w).0) [
  | inl c ↦ absurd (ground arith)
  | inr c ↦ elim (Result-cases (find_lbsd_binary env)) [
    | inl (e, f) ↦ absurd (ground arith)
    | inr (path, f) ↦ elim (Bool-cases env.log_dir_made) [
      | inr d ↦ absurd (ground arith)
      | inl d ↦ elim (Bool-cases env.log_opened) [
        | inr o ↦ absurd (ground arith)
        | inl o ↦ elim (Option-cases (spawned env args path (check w).1)) [
          | inl s ↦ absurd (ground arith)
          | inr (w', s) ↦
              let (k, few, seen) = (wait_started_iff env 6 w').0 (ground arith) in
              record {
                idle = c;
                path = path;
                found = f;
                log_dir = d;
                log_file = o;
                spawn = w';
                process = s;
                looks = k;
                few = few;
                seen = seen;
              }
        ]
      ]
    ]
  ]
]

ok-of_IsStarted :
    (env : System) (args : List Bytes) (w : World)
    → IsStarted env args w
    → (start_command env args w).0 ≡ ok tt
unfolding start_command launch after_spawn
ok-of_IsStarted env args w s =
    let waited = (wait_started_iff env 6 s.spawn).1 (s.looks, s.few, s.seen) in
    rw (s.idle, s.found, launch, s.log_dir, s.log_file, s.process, waited) refl

-- `lbs start` succeeds exactly if no daemon was running, the program is found, the log file can be
-- opened, the process starts, and one of six looks at the PID file, half a second apart, finds it.
pub start_command_iff :
    (env : System) (args : List Bytes) (w : World)
    → ((start_command env args w).0 ≡ ok tt) ↔ IsStarted env args w
start_command_iff env args w = (IsStarted-of_ok env args w, ok-of_IsStarted env args w)

abbrev pub shutdown_url : System → Bytes
shutdown_url env = get_api_addr env.env_addr ++ codes "/shutdown"

-- What each result of `lbs stop` says.
abbrev pub IsStopped : System → World → Result StopError (Unit {0}) × World → Type 0
IsStopped env w (ok u, last) =
    (answered : World) × (env.post (shutdown_url env) (check w).1 ≡ some (200, answered))
    × ((check last).0 ≡ false)
IsStopped env w (err not_running, last) = (check w).0 ≡ false
IsStopped env w (err no_request, last) = env.request_made (shutdown_url env) ≡ false
IsStopped env w (err no_connection, last) = env.post (shutdown_url env) (check w).1 ≡ none
IsStopped env w (err timed_out, last) =
    (answered : World) × (env.post (shutdown_url env) (check w).1 ≡ some (200, answered))
    × (answered.now + max_wait ≤ last.now)
IsStopped env w (err (refused status), last) =
    (env.post (shutdown_url env) (check w).1 ≡ some (status, last)) × (status ≢ 200)

IsStopped-of_IsWaited :
    (env : System) (w answered : World) (r : Result StopError (Unit {0}) × World)
    → env.post (shutdown_url env) (check w).1 ≡ some (200, answered)
    → IsWaited answered.now r
    → IsStopped env w r
IsStopped-of_IsWaited env w answered (ok u, last) p (inl (e, c)) = (answered, p, c)
IsStopped-of_IsWaited env w answered (err x, last) p (inl (e, c)) = absurd (cc)
IsStopped-of_IsWaited env w answered (ok u, last) p (inr (e, t)) = absurd (cc)
IsStopped-of_IsWaited env w answered (err timed_out, last) p (inr (e, t)) = (answered, p, t)
IsStopped-of_IsWaited env w answered (err not_running, last) p (inr (e, t)) = absurd (cc)
IsStopped-of_IsWaited env w answered (err no_request, last) p (inr (e, t)) = absurd (cc)
IsStopped-of_IsWaited env w answered (err no_connection, last) p (inr (e, t)) = absurd (cc)
IsStopped-of_IsWaited env w answered (err (refused s), last) p (inr (e, t)) = absurd (cc)

-- If a sleep of half a second takes that long, `lbs stop` ends. A success means that the daemon
-- has answered 200 and that the last look at the PID file found no daemon; the limit is
-- reported no sooner than thirty seconds after the answer; the other errors say what they name.
pub stop_command-IsStopped :
    (env : System) (w : World)
    → IsClock env
    → (r : Result StopError (Unit {0}) × World) × (stop_command env w ≡ some r) × IsStopped env w r
unfolding stop_command after_post
stop_command-IsStopped env w clock = elim (Bool-cases (check w).0) [
  | inr c ↦ ((err not_running, (check w).1), rw c refl, c)
  | inl c ↦ elim (Bool-cases (env.request_made (shutdown_url env))) [
    | inr m ↦ ((err no_request, (check w).1), rw (c, m) refl, m)
    | inl m ↦ elim (Option-cases (env.post (shutdown_url env) (check w).1)) [
      | inl p ↦ ((err no_connection, (check w).1), rw (c, m, p) refl, p)
      | inr ((status, answered), p) ↦ elim (Bool-cases (status == 200)) [
        | inr s ↦ ((err (refused status), answered), rw (c, m, p, s) refl, (p, ground arith))
        | inl s ↦
            let same : status ≡ 200 = ground arith in
            let (r, e, done) =
              wait_stopped_total env 60 answered.now answered clock (omega arith) (omega arith) in
            (r, rw (c, m, p, s) e, IsStopped-of_IsWaited env w answered r (rw same at p) done)
      ]
    ]
  ]
]

launch-ne :
    (env : System) (args : List Bytes) (w : World) → (launch env args w).0 ≢ err already_running
unfolding launch after_spawn
launch-ne env args w h = ground arith

start_command-ne :
    (env : System) (args : List Bytes) (w : World)
    → (check w).0 ≡ false
    → (start_command env args w).0 ≢ err already_running
unfolding start_command
start_command-ne env args w c h = launch-ne env args (check w).1 (ground arith)

as_restart-ne :
    (r : Result StartError (Unit {0}) × World)
    → r.0 ≢ err already_running
    → (as_restart r).0 ≢ err (not_restarted already_running)
as_restart-ne (ok u, w) n h = absurd (cc)
as_restart-ne (err e, w) n h = n (cc)

start-after_stop :
    (env : System) (args : List Bytes) (w : World) (r : Result StopError (Unit {0}) × World)
    → IsStopped env w r
    → (x : Result RestartError (Unit {0}) × World) × (then_start env args (some r) ≡ some x)
      × (x.0 ≢ err (not_restarted already_running))
start-after_stop env args w (err e, last) s = ((err (not_stopped e), last), refl, λ h. absurd (cc))
start-after_stop env args w (ok u, last) s = (
  as_restart (start_command env args last),
  refl,
  as_restart-ne (start_command env args last) (start_command-ne env args last s.2),
)

-- If a sleep of half a second takes that long, `lbs restart` ends, and it never fails because a
-- daemon is running already: neither after its `lbs stop` nor when it finds none to stop.
pub restart_command-Ends :
    (env : System) (args : List Bytes) (w : World)
    → IsClock env
    → (r : Result RestartError (Unit {0}) × World) × (restart_command env args w ≡ some r)
      × (r.0 ≢ err (not_restarted already_running))
unfolding restart_command
restart_command-Ends env args w clock = elim (Bool-cases (check w).0) [
  | inr c ↦
      let again = start_command env args (check w).1 in
      (
        as_restart again,
        rw c refl,
        as_restart-ne again (start_command-ne env args (check w).1 (check-again w c)),
      )
  | inl c ↦
      let (r, e, stopped) = stop_command-IsStopped env (check w).1 clock in
      let (x, f, n) = start-after_stop env args (check w).1 r stopped in (x, rw (c, e) f, n)
]
