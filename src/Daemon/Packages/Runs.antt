-- ===== src/Daemon/Packages/Runs.antt =====
-- Sequences of calls of the package database, each with what the disk does to it.
use libreseed.Prelude.{ℕ, Bool, List, [], ◌∷◌}
use libreseed.Text.{Bytes}
use libreseed.Storage.{Env}
use libreseed.Daemon.PackageInfo.{PackageInfo}
use libreseed.Daemon.Packages.{Yaml, World, add_package, remove_package, update_announcement_status}
use libreseed.Daemon.Packages.Invariant.{
  IsValid, add_package-IsValid, remove_package-IsValid, update_announcement_status-IsValid,
}

-- The calls that change the database, each with its own environment, in which any system call may
-- fail.
pub data Call (D : Type 0) : Type 0 where
  adds : Env D → PackageInfo → Call D
  removes : Env D → Bool → Bytes → Call D
  marks : Env D → Bytes → Bool → ℕ → Call D

module _ {D : Type 0} (yaml : Yaml D) where
  unfoldable pub step : World D → Call D → World D
  step w (adds env info) = (add_package yaml env w info).1
  step w (removes env refused id) = (remove_package yaml env refused w id).1
  step w (marks env id announced now) = (update_announcement_status yaml env w id announced now).1

  unfoldable pub run : World D → List (Call D) → World D
  run w [] = w
  run w (c ∷ cs) = run (step w c) cs

  step-IsValid :
      (w : World D) (c : Call D) → IsValid w.manager.packages → IsValid (step w c).manager.packages
  unfolding step
  step-IsValid w (adds env info) v = add_package-IsValid yaml env w info v
  step-IsValid w (removes env refused id) v = remove_package-IsValid yaml env w refused id v
  step-IsValid w (marks env id announced now) v =
      update_announcement_status-IsValid yaml env w id announced now v

  -- Calls of `AddPackage`, `RemovePackage` and `UpdateAnnouncementStatus` in any order, whichever
  -- system calls fail in them, keep the database valid: one entry for each id, under its own id,
  -- and every entry passes `validatePackageInfo`.
  run-IsValid :
      (w : World D) (cs : List (Call D))
      → IsValid w.manager.packages
      → IsValid (run w cs).manager.packages
  unfolding run
  run-IsValid w [] v = v
  run-IsValid w (c ∷ cs) v = run-IsValid (step w c) cs (step-IsValid w c v)
