-- ===== src/Daemon/State.antt =====
-- pkg/daemon/state.go: the operational state of the daemon. An error is its text.
use mathlib.Core.Option.{Option, none, some}
use libreseed.Prelude.{ℕ, sub_time}
use libreseed.Text.{Bytes}

pub data DaemonStatus : Type 0 where
  status_starting status_running status_stopping status_stopped status_error : DaemonStatus

pub record DaemonState : Type 0 where
  pub start_time : ℕ
  pub status : DaemonStatus
  pub active_packages : ℕ
  pub total_peers : ℕ
  pub dht_nodes : ℕ
  pub last_error : Option Bytes
  pub last_error_time : ℕ

-- `NewDaemonState`, at a clock reading.
abbrev pub new_daemon_state : ℕ → DaemonState
new_daemon_state now = record {
  start_time = now;
  status = status_starting;
  active_packages = 0;
  total_peers = 0;
  dht_nodes = 0;
  last_error = none;
  last_error_time = 0;
}

abbrev pub set_status : DaemonStatus → DaemonState → DaemonState
set_status status s = record s { status = status }

abbrev pub set_active_packages : ℕ → DaemonState → DaemonState
set_active_packages count s = record s { active_packages = count }

abbrev pub set_total_peers : ℕ → DaemonState → DaemonState
set_total_peers count s = record s { total_peers = count }

abbrev pub set_dht_nodes : ℕ → DaemonState → DaemonState
set_dht_nodes count s = record s { dht_nodes = count }

-- `SetError`, at a clock reading.
abbrev pub set_error : Bytes → ℕ → DaemonState → DaemonState
set_error e now s = record s { last_error = some e; last_error_time = now }

-- `GetUptime`.
abbrev pub get_uptime : DaemonState → ℕ → ℕ
get_uptime s now = sub_time now s.start_time

pub record DaemonStateSnapshot : Type 0 where
  pub state : DaemonState
  pub uptime : ℕ

-- `Snapshot`: the fields and the uptime.
abbrev pub snapshot : DaemonState → ℕ → DaemonStateSnapshot
snapshot s now = record { state = s; uptime = get_uptime s now }
