-- ===== src/Daemon/Lifecycle.antt =====
-- pkg/daemon/daemon.go: `Start`, `Stop`, the background worker and its periodic tasks. `none` as
-- the result of a call is a panic, which ends the process.
pub mod Populate
pub mod Runs
pub mod Restart
pub mod Tasks
pub mod Hashes
use libreseed.Prelude.{
  ℕ, ◌+◌, ◌-◌, ◌*◌, Bool, true, false, not, ◌&&◌, ◌||◌, Option, none, some, List, [], ◌∷◌, length,
  take, ltb, ◌==◌, if◌then◌else◌, Result, ok, err,
}
use libreseed.Text.{Bytes}
use libreseed.Text.Hex.{decode}
use libreseed.Daemon.PackageInfo.{PackageInfo}
use libreseed.Daemon.Packages.{PackageManager, list_packages}
use libreseed.Daemon.State.{
  DaemonStatus, status_starting, status_running, status_stopping, status_stopped, status_error,
  DaemonState, new_daemon_state, set_status, set_total_peers, set_dht_nodes, set_error,
}
use libreseed.Dht.Announcer
use libreseed.Dht.Announcer.{Announcer}
use libreseed.Dht.Client
use libreseed.Dht.Client.{Client, ClientError}
use libreseed.Dht.Discovery
use libreseed.Dht.Discovery.{Discovery, new_discovery}
use libreseed.Dht.Peers
use libreseed.Dht.Peers.{PeerManager, new_peer_manager}

-- `stop_closed` and `stopped_closed` say that the channels are closed, `http_shut` that the HTTP
-- server has been shut down, `serving` that it accepts connections; `workers` counts the
-- goroutines in `backgroundWorker`, `cancelled` is the context of the announcer.
pub record Daemon : Type 0 where
  pub state : DaemonState
  pub enable_dht : Bool
  pub manager : PackageManager
  pub announcer : Announcer
  pub cancelled : Bool
  pub client : Client
  pub peers : PeerManager
  pub discovery : Discovery
  pub stop_closed : Bool
  pub stopped_closed : Bool
  pub http_shut : Bool
  pub serving : Bool
  pub workers : ℕ

-- What `New` returns, once the database is loaded and the client made.
abbrev pub new_daemon : Bool → PackageManager → Client → ℕ → Daemon
new_daemon enable_dht manager client now = record {
  state = new_daemon_state now;
  enable_dht = enable_dht;
  manager = manager;
  announcer = [];
  cancelled = false;
  client = client;
  peers = new_peer_manager;
  discovery = new_discovery (15 * 60000000000);
  stop_closed = false;
  stopped_closed = false;
  http_shut = false;
  serving = false;
  workers = 0;
}

abbrev pub is_running : DaemonStatus → Bool
is_running status_running = true
is_running _ = false

-- The statuses in which `Stop` returns at once.
abbrev pub is_halted : DaemonStatus → Bool
is_halted status_stopping = true
is_halted status_stopped = true
is_halted _ = false

-- What the system makes of a start: an error of `net.Listen`, and whether the DHT client gets its
-- connection and its server; the texts of the errors, and the clock.
pub record StartEnv : Type 0 where
  pub listen_error : Option Bytes
  pub connects : Bool
  pub serves : Bool
  pub dht_error : Bytes
  pub now : ℕ

pub data StartError : Type 0 where
  already_running no_listener : StartError
  no_dht : ClientError → StartError

-- The hash under which a package of the database is announced.
unfoldable pub startup_hash : PackageInfo → Option Bytes
startup_hash pkg = elim (decode pkg.package_id) [
  | none ↦ none
  | some bytes ↦ if ltb (length bytes) 20 then none else some (take 20 bytes)
]

unfoldable pub announce_existing : Announcer → PackageInfo → Announcer
unfolding startup_hash
announce_existing a pkg = elim (startup_hash pkg) [
  | none ↦ a
  | some info_hash ↦
      Announcer.add_package a info_hash pkg.name pkg.creator_fingerprint pkg.maintainer_fingerprint
]

-- The loop over the packages of the database.
unfoldable pub populate : Announcer → List PackageInfo → Announcer
unfolding announce_existing
populate a [] = a
populate a (pkg ∷ pkgs) = populate (announce_existing a pkg) pkgs

-- The end of `Start`: the goroutine of the HTTP server, whose `Serve` returns at once after a
-- shutdown, and the one of the background worker.
unfoldable pub launch : Daemon → Daemon
launch d = record d {
  serving = not d.http_shut;
  workers = d.workers + 1;
  state = set_status status_running d.state;
}

abbrev pub fail_start : Daemon → Bytes → ℕ → Daemon
fail_start d e now = record d { state = set_error e now (set_status status_error d.state) }

-- `Start` after the client has answered.
unfoldable pub with_client :
    Daemon
    → StartEnv
    → Result ClientError (Unit {0}) × Client
    → Result StartError (Unit {0}) × Daemon
unfolding launch populate
with_client d env (err e, c) =
    (err (no_dht e), fail_start (record d { client = c }) env.dht_error env.now)
with_client d env (ok u, c) = (
  ok tt,
  launch (record d { client = c; announcer = populate d.announcer (list_packages d.manager) }),
)

unfoldable pub start_listening : Daemon → StartEnv → Result StartError (Unit {0}) × Daemon
unfolding with_client
start_listening d env = elim env.listen_error [
  | some e ↦ (err no_listener, fail_start d e env.now)
  | none ↦
      if d.enable_dht
      then with_client d env (Client.start d.client env.connects env.serves)
      else (ok tt, launch d)
]

-- `Start`.
unfoldable pub start : Daemon → StartEnv → Result StartError (Unit {0}) × Daemon
unfolding start_listening
start d env =
    if is_running d.state.status
    then (err already_running, d)
    else start_listening (record d { state = set_status status_starting d.state }) env

pub data StopError : Type 0 where
  not_shut_down : StopError

-- `Stop` from the closing of `stopCh` to the call of `Shutdown`, which closes the listener first.
unfoldable pub shut_down : Daemon → Daemon
shut_down d = record d {
  state = set_status status_stopping d.state;
  stop_closed = true;
  cancelled = d.enable_dht || d.cancelled;
  client = if d.enable_dht then Client.stop d.client else d.client;
  http_shut = true;
  serving = false;
}

-- `Stop`: `shutdown_error` is what `Shutdown` returns. The wait for the worker has a time limit
-- and no result.
unfoldable pub stop : Daemon → Option Bytes → ℕ → Option (Result StopError (Unit {0}) × Daemon)
unfolding shut_down
stop d shutdown_error now =
    if is_halted d.state.status
    then some (ok tt, d)
    else if d.stop_closed
    then none
    else let after = shut_down d in
      elim shutdown_error [
        | some e ↦ some (err not_shut_down, record after { state = set_error e now after.state })
        | none ↦ some (ok tt, record after { state = set_status status_stopped after.state })
      ]

-- `performPeriodicTasks`, with the size of the routing table and two readings of the clock.
unfoldable pub perform_periodic_tasks : Daemon → ℕ → ℕ → ℕ → Daemon
perform_periodic_tasks d num_nodes now now' =
    if d.enable_dht
    then (let (dht_stats, c) = Client.get_stats d.client num_nodes in
        let total = (Peers.get_stats d.peers).total_peers in
        record d {
          client = c;
          state = set_total_peers total (set_dht_nodes dht_stats.nodes_in_routing_table d.state);
          peers = (Peers.remove_stale_peers d.peers (5 * 60000000000) now).0;
          discovery = (Discovery.clear_expired d.discovery now').0;
        })
    else d

-- A worker that sees the closed `stopCh` closes `stoppedCh` and ends; without either, nothing
-- happens.
unfoldable pub return_worker : Daemon → Option Daemon
return_worker d =
    if d.workers == 0 || not d.stop_closed
    then some d
    else if d.stopped_closed
    then none
    else some (record d { stopped_closed = true; workers = d.workers - 1 })

-- The ticker of a worker.
unfoldable pub tick : Daemon → ℕ → ℕ → ℕ → Daemon
unfolding perform_periodic_tasks
tick d num_nodes now now' =
    if d.workers == 0 then d else perform_periodic_tasks d num_nodes now now'

-- `Serve` returns another error than `ErrServerClosed`.
unfoldable pub fail_serving : Daemon → Bytes → ℕ → Daemon
fail_serving d e now =
    if d.serving then record d { serving = false; state = set_error e now d.state } else d
