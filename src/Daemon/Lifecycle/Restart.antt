-- ===== src/Daemon/Lifecycle/Restart.antt =====
-- What `Stop` leaves behind, and what a `Start` after it does.
use libreseed.Prelude.{
  ℕ, ◌≡◌, refl, Bool, true, false, Option, none, some, arith, ok, err, Result, not, ap, ◌∙◌,
  Bool-cases, Option-cases, inl, inr,
}
use libreseed.Text.{Bytes}
use libreseed.Daemon.State.{status_starting, status_running, status_stopped, set_status}
use libreseed.Daemon.Lifecycle.{
  Daemon, StartEnv, is_running, is_halted, start, start_listening, with_client, launch, stop,
  shut_down, return_worker, StopError,
}
use libreseed.Dht.Client
use libreseed.Dht.Client.{Client, ClientError}
use libreseed.Daemon.Lifecycle.Runs.{IsValid}

-- What a `Stop` with a successful shutdown leaves of a running daemon.
pub record IsStopped (d : Daemon) : Type 0 where
  pub status : d.state.status ≡ status_stopped
  pub silent : d.serving ≡ false
  pub left : d.enable_dht ≡ true → (d.client.started ≡ false) × (d.cancelled ≡ true)
  pub again : (e : Option Bytes) (now : ℕ) → stop d e now ≡ some (ok tt, d)
  pub ends :
      (after : Daemon) × (return_worker d ≡ some after)
      × (after.workers ≡ 0)
      × (after.stopped_closed ≡ true)

-- A `Stop` of a running daemon that was never stopped returns no error if the shutdown of the
-- server succeeds. The status is then stopped, no connection is accepted, the DHT client and the
-- announcer have been stopped if the DHT is enabled, a further `Stop` changes nothing, and the
-- background worker can end.
pub stop-IsStopped :
    (seen : Bool) (d : Daemon) (now : ℕ)
    → IsValid seen d
    → is_running d.state.status ≡ true
    → (after : Daemon) × (stop d none now ≡ some (ok tt, after)) × IsStopped after
unfolding stop shut_down return_worker Client.stop
stop-IsStopped seen d now v h =
    let h' : is_halted d.state.status ≡ false = ground arith in
    let c : d.stop_closed ≡ false = ground (arith, v.halted) in
    let s : d.stopped_closed ≡ false = ground (arith, v.done) in
    let w : d.workers ≡ 1 = v.working h in
    let after : Daemon = record (shut_down d) {
      state = set_status status_stopped (shut_down d).state;
    } in
    (
      after,
      rw (h', c) refl,
      record {
        status = refl;
        silent = refl;
        left = λ e. ground arith;
        again = λ _ _. refl;
        ends = (record after { stopped_closed = true; workers = 0 }, rw (s, w) refl, refl, refl);
      },
    )

with_client-ok :
    (d : Daemon) (env : StartEnv) (r : Result ClientError (Unit {0}) × Client)
    → (with_client d env r).0 ≡ ok tt
    → ((with_client d env r).1.state.status ≡ status_running)
      × ((with_client d env r).1.serving ≡ not d.http_shut)
      × ((with_client d env r).1.stop_closed ≡ d.stop_closed)
unfolding with_client launch
with_client-ok d env (ok u, c) h = (refl, refl, refl)
with_client-ok d env (err e, c) h = absurd (cc h)

start-ok :
    (d : Daemon) (env : StartEnv)
    → (start d env).0 ≡ ok tt
    → ((start d env).1.state.status ≡ status_running)
      × ((start d env).1.serving ≡ not d.http_shut)
      × ((start d env).1.stop_closed ≡ d.stop_closed)
unfolding start start_listening launch
start-ok d env h =
    let d' : Daemon = record d { state = set_status status_starting d.state } in
    ground (arith, with_client-ok d' env (Client.start d.client env.connects env.serves))

-- What a `Stop` that had something to do leaves of the channel and the server, whatever `Shutdown`
-- returned.
stop-flags :
    (d after : Daemon) (e : Option Bytes) (now : ℕ) (r : Result StopError (Unit {0}))
    → is_halted d.state.status ≡ false
    → stop d e now ≡ some (r, after)
    → (after.stop_closed ≡ true) × (after.http_shut ≡ true)
unfolding stop shut_down
stop-flags d after e now r h stopped = elim (Bool-cases d.stop_closed) [
  | inl c ↦ absurd (cc (rw (h, c) at stopped))
  | inr c ↦ elim (Option-cases e) [
    | inl q ↦ ground (arith, rw (h, c, q) at stopped)
    | inr q ↦ ground (arith, rw (h, c) at stopped)
  ]
]

-- After a `Stop` of a daemon that was neither stopping nor stopped, whatever the shutdown of the
-- server returned, a `Start` that returns no error leaves a daemon whose status is running but
-- which accepts no connections, and the next `Stop` panics.
pub start-after_stop :
    (d after : Daemon) (env : StartEnv) (e e' : Option Bytes) (now now' : ℕ)
    (r : Result StopError (Unit {0}))
    → is_halted d.state.status ≡ false
    → stop d e now ≡ some (r, after)
    → (start after env).0 ≡ ok tt
    → ((start after env).1.state.status ≡ status_running)
      × ((start after env).1.serving ≡ false)
      × (stop (start after env).1 e' now' ≡ none)
unfolding stop
start-after_stop d after env e e' now now' r h stopped started =
    let (c, s) = stop-flags d after e now r h stopped in
    let (running, serves, closed) = start-ok after env started in
    (running, serves ∙ ap not s, rw (running, closed, c) refl)
