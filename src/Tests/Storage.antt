-- ===== src/Tests/Storage.antt =====
-- pkg/storage: a file is replaced, with and without a system call that fails.
use mathlib.Core.Option.{some}
use libreseed.Prelude.{◌≢◌, arith, [], ◌∷◌, All}
use libreseed.Text.{Bytes, codes}
use libreseed.Storage.{Files, Env, not_synced, atomic_write_file}
use libreseed.Storage.Atomic.{IsOldOrNew}
use libreseed.Storage.WriteFile.{start, atomic_write_file_crash}
use libreseed.Tests.Samples.{Document, other, listing, no_fault}

abbrev target : Bytes
target = codes "/m/meta"

abbrev old_files : Files Document
old_files = (target, record { content = other; mode = 0o600 }) ∷ []

abbrev failing : Env Document
failing = record no_fault { fault = some not_synced }

target_apart : target ≢ no_fault.tmp
target_apart e = ground arith

atomic_write_file_crash_example :
    All
      (IsOldOrNew failing target (listing []) 0o644 old_files)
      (atomic_write_file failing target
        (listing [])
        0o644
        (start failing target (listing []) 0o644 old_files)).1.history
atomic_write_file_crash_example =
    atomic_write_file_crash failing target (listing []) 0o644 old_files target_apart
