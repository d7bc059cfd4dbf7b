-- ===== src/Daemon/Lifecycle/Runs.antt =====
-- Sequences of starts, stops and steps of the background goroutines of the daemon.
use libreseed.Prelude.{
  ℕ, ◌≡◌, ◌≤◌, ◌⊎◌, ◌==◌, ◌||◌, refl, inl, inr, Bool, true, false, not, ◌&&◌, Option, none, some,
  List, [], ◌∷◌, arith, is_some, Bool-cases,
}
use libreseed.Text.{Bytes}
use libreseed.Daemon.Packages.{PackageManager}
use libreseed.Daemon.State.{DaemonState, status_stopped, set_status, set_error}
use libreseed.Daemon.Lifecycle.{
  Daemon, StartEnv, new_daemon, is_running, is_halted, start, start_listening, with_client, launch,
  stop, shut_down, tick, perform_periodic_tasks, return_worker, fail_serving,
}
use libreseed.Dht.Client
use libreseed.Dht.Client.{Client}

pub data Event : Type 0 where
  starts : StartEnv → Event
  stops : Option Bytes → ℕ → Event
  worker_returns : Event
  ticks : ℕ → ℕ → ℕ → Event
  serve_fails : Bytes → ℕ → Event

abbrev pub daemon_after {ℓ} : {A : Type ℓ} → Option (A × Daemon) → Option Daemon
daemon_after none = none
daemon_after (some r) = some r.1

unfoldable pub step : Daemon → Event → Option Daemon
step d (starts env) = some (start d env).1
step d (stops e now) = daemon_after (stop d e now)
step d worker_returns = return_worker d
step d (ticks num_nodes now now') = some (tick d num_nodes now now')
step d (serve_fails e now) = some (fail_serving d e now)

unfoldable pub run : Daemon → List Event → Option Daemon
unfolding step
run d [] = some d
run d (e ∷ es) = elim (step d e) [ none ↦ none | some d' ↦ run d' es ]

-- Whether `Stop` has been called, after an event.
abbrev pub stop_called : Bool → Event → Bool
stop_called seen (stops e now) = true
stop_called seen _ = seen

abbrev pub is_start : Event → Bool
is_start (starts env) = true
is_start _ = false

-- No `Start` comes after a `Stop`.
unfoldable pub never_restarts : Bool → List Event → Bool
never_restarts seen [] = true
never_restarts seen (e ∷ es) =
    let rest = never_restarts (stop_called seen e) es in not (seen && is_start e) && rest

-- What holds as long as no `Start` has come after a `Stop`; `seen` says that `Stop` was called.
pub record IsValid (seen : Bool) (d : Daemon) : Type 0 where
  pub halted : d.stop_closed ≡ true → is_halted d.state.status ≡ true
  pub called : d.stop_closed ≡ true → seen ≡ true
  pub few : d.workers ≤ 1
  pub done : d.stopped_closed ≡ true → (d.workers ≡ 0) × (d.stop_closed ≡ true)
  pub idle : d.stop_closed ≡ false → is_running d.state.status ≡ false → d.workers ≡ 0
  pub shut : d.http_shut ≡ true → d.stop_closed ≡ true
  pub working : is_running d.state.status ≡ true → d.workers ≡ 1
  pub connected : is_running d.state.status ≡ true → d.enable_dht ≡ true → d.client.started ≡ true
  pub serving :
      is_running d.state.status ≡ true → (d.serving ≡ true) ⊎ (is_some d.state.last_error ≡ true)

start-IsValid : (d : Daemon) (env : StartEnv) → IsValid false d → IsValid false (start d env).1
unfolding start start_listening with_client launch Client.start
start-IsValid d env v = record {
  halted = ground (arith, v.halted, v.called);
  called = ground (arith, v.called);
  few = ground (arith, v.few, v.idle, v.called);
  done = ground (arith, v.done, v.called);
  idle = ground (arith, v.idle, v.called);
  shut = ground (arith, v.shut);
  working = ground (arith, v.working, v.idle, v.called);
  connected = ground (arith, v.connected);
  serving = ground (arith, v.serving, v.shut, v.called);
}

shut_down-IsValid :
    (seen : Bool) (d : Daemon)
    → is_halted d.state.status ≡ false
    → IsValid seen d
    → IsValid true (shut_down d)
unfolding shut_down
shut_down-IsValid seen d h v = record {
  halted = λ _. refl;
  called = λ _. refl;
  few = v.few;
  done = ground (arith, v.done, v.halted);
  idle = ground arith;
  shut = ground arith;
  working = ground arith;
  connected = ground arith;
  serving = ground arith;
}

-- What a call of `Stop` leaves behind, if it does not panic.
abbrev pub IsFine : Bool → Option Daemon → Type 0
IsFine seen none = ⊥
IsFine seen (some d) = IsValid seen d

called-IsValid : (seen : Bool) (d : Daemon) → IsValid seen d → IsValid true d
called-IsValid seen d v = record {
  halted = v.halted;
  called = λ _. refl;
  few = v.few;
  done = v.done;
  idle = v.idle;
  shut = v.shut;
  working = v.working;
  connected = v.connected;
  serving = v.serving;
}

-- A change of the state that halts the daemon or leaves it halted.
with_halted-IsValid :
    (d : Daemon) (s : DaemonState)
    → is_halted s.status ≡ true
    → is_halted d.state.status ≡ true
    → d.stop_closed ≡ true
    → IsValid true d
    → IsValid true (record d { state = s })
with_halted-IsValid d s h g c v = record {
  halted = λ _. h;
  called = λ _. refl;
  few = v.few;
  done = v.done;
  idle = ground arith;
  shut = v.shut;
  working = ground arith;
  connected = ground arith;
  serving = ground arith;
}

stop-IsFine :
    (seen : Bool) (d : Daemon) (e : Option Bytes) (now : ℕ)
    → is_halted d.state.status ≡ false
    → IsValid seen d
    → IsFine true (daemon_after (stop d e now))
unfolding stop shut_down
stop-IsFine seen d none now h v =
    let c : d.stop_closed ≡ false = ground (arith, v.halted) in
    rw (h, c)
      (with_halted-IsValid (shut_down d) (set_status status_stopped (shut_down d).state) refl refl
        refl (shut_down-IsValid seen d h v))
stop-IsFine seen d (some e) now h v =
    let c : d.stop_closed ≡ false = ground (arith, v.halted) in
    rw (h, c)
      (with_halted-IsValid (shut_down d) (set_error e now (shut_down d).state) refl refl refl
        (shut_down-IsValid seen d h v))

tick-IsValid :
    (seen : Bool) (d : Daemon) (num_nodes now now' : ℕ)
    → IsValid seen d
    → IsValid seen (tick d num_nodes now now')
unfolding tick perform_periodic_tasks Client.get_stats
tick-IsValid seen d num_nodes now now' v = record {
  halted = ground (arith, v.halted);
  called = ground (arith, v.called);
  few = ground (arith, v.few);
  done = ground (arith, v.done);
  idle = ground (arith, v.idle);
  shut = ground (arith, v.shut);
  working = ground (arith, v.working);
  connected = ground (arith, v.connected);
  serving = ground (arith, v.serving);
}

return_worker-IsFine : (seen : Bool) (d : Daemon) → IsValid seen d → IsFine seen (return_worker d)
unfolding return_worker
return_worker-IsFine seen d v = elim (Bool-cases (d.workers == 0 || not d.stop_closed)) [
  | inl h ↦ rw h v
  | inr h ↦
      let c : d.stopped_closed ≡ false = ground (arith, v.done) in
      rw (h, c)
        (record {
          halted = v.halted;
          called = v.called;
          few = ground (arith, v.few);
          done = ground (arith, v.few);
          idle = ground (arith, v.idle);
          shut = v.shut;
          working = ground (arith, v.halted);
          connected = v.connected;
          serving = v.serving;
        })
]

fail_serving-IsValid :
    (seen : Bool) (d : Daemon) (e : Bytes) (now : ℕ)
    → IsValid seen d
    → IsValid seen (fail_serving d e now)
unfolding fail_serving
fail_serving-IsValid seen d e now v = record {
  halted = ground (arith, v.halted);
  called = ground (arith, v.called);
  few = ground (arith, v.few);
  done = ground (arith, v.done);
  idle = ground (arith, v.idle);
  shut = ground (arith, v.shut);
  working = ground (arith, v.working);
  connected = ground (arith, v.connected);
  serving = ground (arith, v.serving);
}

step-IsFine :
    (seen : Bool) (d : Daemon) (e : Event)
    → not (seen && is_start e) ≡ true
    → IsValid seen d
    → IsFine (stop_called seen e) (step d e)
unfolding step stop
step-IsFine true d (starts env) h v = absurd (ground arith)
step-IsFine false d (starts env) h v = start-IsValid d env v
step-IsFine seen d (stops e now) h v = elim (Bool-cases (is_halted d.state.status)) [
  | inl q ↦ rw q (called-IsValid seen d v)
  | inr q ↦ stop-IsFine seen d e now q v
]
step-IsFine seen d worker_returns h v = return_worker-IsFine seen d v
step-IsFine seen d (ticks num_nodes now now') h v = tick-IsValid seen d num_nodes now now' v
step-IsFine seen d (serve_fails e now) h v = fail_serving-IsValid seen d e now v

-- Whether `Stop` has been called after a sequence of events.
abbrev pub stop_called_in : Bool → List Event → Bool
stop_called_in seen [] = seen
stop_called_in seen (e ∷ es) = stop_called_in (stop_called seen e) es

run_rest-IsFine :
    (seen seen' : Bool) (o : Option Daemon) (es : List Event)
    → ((d : Daemon) → IsValid seen d → IsFine seen' (run d es))
    → IsFine seen o
    → IsFine seen' (elim o [ none ↦ none | some d ↦ run d es ])
run_rest-IsFine seen seen' none es k w = w
run_rest-IsFine seen seen' (some d) es k w = k d w

run-IsFine :
    (seen : Bool) (d : Daemon) (es : List Event)
    → never_restarts seen es ≡ true
    → IsValid seen d
    → IsFine (stop_called_in seen es) (run d es)
unfolding run never_restarts
run-IsFine seen d [] h v = v
run-IsFine seen d (e ∷ es) h v =
    run_rest-IsFine (stop_called seen e) (stop_called_in seen (e ∷ es)) (step d e) es
      (λ d' w. run-IsFine (stop_called seen e) d' es (ground arith) w)
      (step-IsFine seen d e (ground arith) v)

-- As long as no `Start` comes after a `Stop`, no sequence of starts, stops, ticks and returns of
-- the worker makes the daemon panic; while its status is running, it has exactly one background
-- worker, the DHT client is started if it is enabled, and the HTTP server accepts connections
-- unless an error is recorded.
pub run-new_daemon-IsFine :
    (enable_dht : Bool) (manager : PackageManager) (client : Client) (now : ℕ) (es : List Event)
    → never_restarts false es ≡ true
    → IsFine (stop_called_in false es) (run (new_daemon enable_dht manager client now) es)
run-new_daemon-IsFine enable_dht manager client now es h =
    run-IsFine false (new_daemon enable_dht manager client now) es h (record {
      halted = ground arith;
      called = ground arith;
      few = omega arith;
      done = ground arith;
      idle = λ _ _. refl;
      shut = ground arith;
      working = ground arith;
      connected = ground arith;
      serving = ground arith;
    })
