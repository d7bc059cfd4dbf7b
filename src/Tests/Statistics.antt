-- ===== src/Tests/Statistics.antt =====
-- The statistics of the daemon over a few reports and a reset.
use libreseed.Prelude.{List, [], ◌∷◌}
use libreseed.Daemon.Statistics.{new_daemon_statistics}
use libreseed.Daemon.Statistics.History.{
  Call, uploads, upload_rates, resets, run, Matches, remember_all, empty_history, run-new-Matches,
}

abbrev reports : List Call
reports = uploads 100 1 ∷ upload_rates 7 2 ∷ resets 3 ∷ uploads 5 4 ∷ upload_rates 3 5 ∷ []

run-new-Matches_example :
    Matches (remember_all empty_history reports) (run (new_daemon_statistics 0) reports)
run-new-Matches_example = run-new-Matches 0 reports
