-- ===== src/Tests/Commands.antt =====
-- The PID file of a daemon that runs, and its signals.
use mathlib.Core.Option.{Option, none, some}
use libreseed.Prelude.{
  ◌≡◌, ◌≢◌, ◌↔◌, ◌+◌, ◌++◌, [], refl, arith, true, if◌then◌else◌, Result, ok, err,
}
use libreseed.Text.{Bytes, codes}
use libreseed.Text.Trim.{ends_well}
use libreseed.Commands.PidFile.{
  Processes, write_pid_file, is_running, get_daemon_addr, is_daemon, remove_pid_file,
}
use libreseed.Commands.PidFile.Reading.{is_running-write_pid_file}
use libreseed.Commands.Shutdown.{
  waiting, stopping, Program, started, signals, main_takes, Reach, here, after,
}
use libreseed.Commands.Shutdown.Signals.{IsValid, Reach-IsValid, signal_lost}
use libreseed.Commands.Control.{
  World, System, start_command, StopError, stop_command, RestartError, restart_command,
  not_restarted, already_running,
}
use libreseed.Commands.Control.Waiting.{IsClock}
use libreseed.Commands.Control.Commanding.{
  IsStarted, start_command_iff, IsStopped, stop_command-IsStopped, restart_command-Ends,
}
use libreseed.Daemon.State.{status_running}

abbrev pub sys : Processes
sys = record {
  readable = true;
  removable = true;
  find_process = λ _. true;
  signal_zero = λ _. true;
  exe_name = λ _. some (codes "lbsd");
}

abbrev pub addr : Bytes
addr = codes "127.0.0.1:9091"

pub addr-ends_well : ends_well addr ≡ true
unfolding ends_well
addr-ends_well = refl

abbrev pub written : Option Bytes
written = (write_pid_file true true none 4242 addr none).1

is_running-write_pid_file_example :
    (get_daemon_addr true [] written ≡ codes "http://" ++ addr)
    × (is_running sys written ≡ (
      is_daemon sys 4242,
      if is_daemon sys 4242 then written else remove_pid_file sys.removable written,
    ))
is_running-write_pid_file_example =
    is_running-write_pid_file sys 4242 addr [] none none (omega arith) (omega arith) addr-ends_well
      refl

-- A signal that the main goroutine takes.
abbrev ended : Program
ended = record (started status_running) { main = stopping; received = 1 }

ends : Reach (started status_running) ended
ends = after (after here signals) (main_takes refl refl)

Reach-IsValid_example : IsValid ended
Reach-IsValid_example = Reach-IsValid status_running ended ends

signal_lost_example :
    (p : Program) × Reach (started status_running) p
    × (p.received ≡ 1)
    × ((q : Program) → Reach p q → q.received ≡ 1 → q.main ≡ waiting)
signal_lost_example = signal_lost status_running

-- A system on which the daemon writes its PID file at once and removes it when it is told to stop.
abbrev running_world : World
running_world = record { file = written; sys = sys; now = 7 }

abbrev system : System
system = record {
  look_path = none;
  executable = some (codes "/usr/bin/lbs");
  beside = λ path. path ++ codes "d";
  exists = λ _. true;
  log_dir_made = true;
  log_opened = true;
  env_addr = [];
  request_made = λ _. true;
  sleep = λ w. record w { now = w.now + 500000000 };
  spawn = λ _ _ w. some (record w { file = written });
  post = λ _ w. some (200, record w { file = none });
}

system-IsClock : IsClock system
system-IsClock w = omega arith

start_command_iff_example :
    ((start_command system [] (record running_world { file = none })).0 ≡ ok tt)
    ↔ IsStarted system [] (record running_world { file = none })
start_command_iff_example = start_command_iff system [] (record running_world { file = none })

stop_command-IsStopped_example :
    (r : Result StopError (Unit {0}) × World) × (stop_command system running_world ≡ some r)
    × IsStopped system running_world r
stop_command-IsStopped_example = stop_command-IsStopped system running_world system-IsClock

restart_command-Ends_example :
    (r : Result RestartError (Unit {0}) × World) × (restart_command system [] running_world
      ≡ some r)
    × (r.0 ≢ err (not_restarted already_running))
restart_command-Ends_example = restart_command-Ends system [] running_world system-IsClock
