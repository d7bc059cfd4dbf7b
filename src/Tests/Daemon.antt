-- ===== src/Tests/Daemon.antt =====
-- The life cycle of the daemon on a database with one package.
use mathlib.Core.Option.{none, some}
use libreseed.Prelude.{◌≡◌, ◌*◌, refl, arith, true, false, List, [], ◌∷◌, ok}
use libreseed.Text.{codes, bytes_discrete}
use libreseed.Daemon.State.{status_running, status_stopped, set_status}
use libreseed.GoMap.{lookup}
use libreseed.Daemon.Packages.{package_exists}
use libreseed.Daemon.Lifecycle.{
  Daemon, StartEnv, new_daemon, start, start_listening, with_client, launch, populate, stop,
  shut_down, perform_periodic_tasks,
}
use libreseed.Daemon.Lifecycle.Runs.{
  Event, starts, stops, worker_returns, ticks, never_restarts, stop_called_in, IsFine, IsValid, run,
  run-new_daemon-IsFine,
}
use libreseed.Daemon.Lifecycle.Restart.{IsStopped, stop-IsStopped, start-after_stop}
use libreseed.Daemon.Lifecycle.Tasks.{IsMaintained, perform_periodic_tasks-IsMaintained}
use libreseed.Dht.Client
use libreseed.Dht.Client.{Client, new_client}
use libreseed.Dht.Peers.{PeerManager, new_peer_manager, remove_stale_peers}
use libreseed.Dht.Peers.Runs as PeerRuns
use libreseed.Tests.Samples.{one_package, sample_info, twenty}

abbrev client : Client
client = new_client none

abbrev idle_daemon : Daemon
idle_daemon = new_daemon true one_package client 0

abbrev env : StartEnv
env = record {
  listen_error = none;
  connects = true;
  serves = true;
  dht_error = codes "no DHT";
  now = 1;
}

abbrev events : List Event
events =
    starts env
    ∷ starts env
    ∷ ticks 8 2 3
    ∷ stops (some (codes "timeout")) 4
    ∷ stops none 5
    ∷ worker_returns
    ∷ []

events-never_restart : never_restarts false events ≡ true
unfolding never_restarts
events-never_restart = refl

run-new_daemon-IsFine_example :
    IsFine (stop_called_in false events) (run (new_daemon true one_package client 0) events)
run-new_daemon-IsFine_example =
    run-new_daemon-IsFine true one_package client 0 events events-never_restart

-- A daemon that runs.
abbrev running : Daemon
running = record idle_daemon {
  state = set_status status_running idle_daemon.state;
  client = record client { has_server = true; started = true };
  serving = true;
  workers = 1;
}

running-IsValid : IsValid false running
unfolding new_client
running-IsValid = record {
  halted = ground arith;
  called = ground arith;
  few = omega arith;
  done = ground arith;
  idle = ground arith;
  shut = ground arith;
  working = λ _. refl;
  connected = λ _ _. refl;
  serving = ground arith;
}

stop-IsStopped_example :
    (after : Daemon) × (stop running none 5 ≡ some (ok tt, after)) × IsStopped after
stop-IsStopped_example = stop-IsStopped false running 5 running-IsValid refl

abbrev stopped : Daemon
stopped = record (shut_down running) { state = set_status status_stopped (shut_down running).state }

running_stops : stop running none 5 ≡ some (ok tt, stopped)
unfolding stop shut_down Client.stop new_client
running_stops = refl

stopped_starts : (start stopped env).0 ≡ ok tt
unfolding start start_listening with_client launch populate shut_down Client.start Client.stop
    new_client
stopped_starts = refl

start-after_stop_example :
    ((start stopped env).1.state.status ≡ status_running)
    × ((start stopped env).1.serving ≡ false)
    × (stop (start stopped env).1 none 9 ≡ none)
start-after_stop_example =
    start-after_stop running stopped env none none 5 9 (ok tt) refl running_stops stopped_starts

idle_starts : (start idle_daemon env).0 ≡ ok tt
unfolding start start_listening with_client launch populate Client.start new_client
idle_starts = refl

idle_listed : package_exists idle_daemon.manager sample_info.package_id ≡ true
unfolding package_exists lookup bytes_discrete
idle_listed = refl

-- Two peers, of which the first is stale at the time of the tasks.
abbrev peer_calls : List PeerRuns.Call
peer_calls =
    PeerRuns.adds (codes "a:1") (twenty 1) 10 11
    ∷ PeerRuns.adds (codes "b:2") (twenty 1) 600000000000 600000000001
    ∷ []

abbrev some_peers : PeerManager
some_peers = PeerRuns.run new_peer_manager peer_calls

abbrev tracking : Daemon
tracking = record running { peers = some_peers }

perform_periodic_tasks-IsMaintained_example :
    IsMaintained tracking
      (perform_periodic_tasks tracking 8 600000000002 600000000003)
      8
      600000000002
      600000000003
      (remove_stale_peers tracking.peers (5 * 60000000000) 600000000002).1
perform_periodic_tasks-IsMaintained_example =
    perform_periodic_tasks-IsMaintained tracking 8 600000000002 600000000003 refl
      (PeerRuns.run-new-IsValid peer_calls) tt
