-- ===== src/Commands/Shutdown.antt =====
-- The end of `main` in cmd/lbsd/main.go: the signals, the goroutine that watches the status of the
-- daemon, and the main goroutine, as a step relation. The daemon is the one of its life cycle.
pub mod Signals
use libreseed.Prelude.{ℕ, ◌+◌, ◌≡◌, Bool, true, false, Option, none, some}
use libreseed.Daemon.Lifecycle.{is_halted}
use libreseed.Daemon.State.{DaemonStatus}

-- Where the main goroutine is: in the `select` that waits for a signal or for `shutdownChan`, or
-- past it, where it calls `Stop` and ends the process.
pub data Main : Type 0 where
  waiting stopping : Main

-- `pending` says that `sigChan`, which holds one signal, is full; `watching` that the goroutine has
-- not returned; `shutdown_closed` that `shutdownChan` is closed; `received` counts the signals that
-- came to the process.
pub record Program : Type 0 where
  pub main : Main
  pub watching : Bool
  pub pending : Bool
  pub shutdown_closed : Bool
  pub received : ℕ
  pub status : DaemonStatus

abbrev pub started : DaemonStatus → Program
started status = record {
  main = waiting;
  watching = true;
  pending = false;
  shutdown_closed = false;
  received = 0;
  status = status;
}

-- The steps: the status changes (a request to stop the daemon is one way), a signal comes and is
-- dropped if the channel is full, the goroutine looks at the status or takes the signal, the main
-- goroutine takes the signal or sees the closed channel.
pub data Step : Program → Program → Type 0 where
  changes : {p : Program} (status : DaemonStatus) → Step p (record p { status = status })
  signals : {p : Program} → Step p (record p { pending = true; received = p.received + 1 })
  looks : {p : Program} → p.watching ≡ true → is_halted p.status ≡ false → Step p p
  closes :
      {p : Program}
      → p.watching ≡ true
      → is_halted p.status ≡ true
      → Step p (record p { watching = false; shutdown_closed = true })
  watcher_takes :
      {p : Program}
      → p.watching ≡ true
      → p.pending ≡ true
      → Step p (record p { watching = false; pending = false })
  main_takes :
      {p : Program}
      → p.main ≡ waiting
      → p.pending ≡ true
      → Step p (record p { main = stopping; pending = false })
  main_sees :
      {p : Program}
      → p.main ≡ waiting
      → p.shutdown_closed ≡ true
      → Step p (record p { main = stopping })

pub data Reach (p : Program) : Program → Type 0 where
  here : Reach p p
  after : {q r : Program} → Reach p q → Step q r → Reach p r
