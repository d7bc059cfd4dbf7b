-- ===== src/Daemon/Statistics.antt =====
-- pkg/daemon/statistics.go: the daemon's counters. Every method is given the time; rates and totals
-- are bit patterns of int64.
pub mod History
use libreseed.Prelude.{ℕ, List, [], ◌∷◌, add_word, signed_lt, if◌then◌else◌}

pub record DaemonStatistics : Type 0 where
  pub total_bytes_uploaded : ℕ
  pub total_bytes_downloaded : ℕ
  pub total_packages_seeded : ℕ
  pub total_peers_connected : ℕ
  pub current_upload_rate : ℕ
  pub current_download_rate : ℕ
  pub peak_upload_rate : ℕ
  pub peak_download_rate : ℕ
  pub last_update_time : ℕ

abbrev pub new_daemon_statistics : ℕ → DaemonStatistics
new_daemon_statistics now = record {
  total_bytes_uploaded = 0;
  total_bytes_downloaded = 0;
  total_packages_seeded = 0;
  total_peers_connected = 0;
  current_upload_rate = 0;
  current_download_rate = 0;
  peak_upload_rate = 0;
  peak_download_rate = 0;
  last_update_time = now;
}

unfoldable pub add_bytes_uploaded : ℕ → ℕ → DaemonStatistics → DaemonStatistics
add_bytes_uploaded bytes now s = record s {
  total_bytes_uploaded = add_word s.total_bytes_uploaded bytes;
  last_update_time = now;
}

unfoldable pub add_bytes_downloaded : ℕ → ℕ → DaemonStatistics → DaemonStatistics
add_bytes_downloaded bytes now s = record s {
  total_bytes_downloaded = add_word s.total_bytes_downloaded bytes;
  last_update_time = now;
}

unfoldable pub increment_packages_seeded : ℕ → DaemonStatistics → DaemonStatistics
increment_packages_seeded now s = record s {
  total_packages_seeded = add_word s.total_packages_seeded 1;
  last_update_time = now;
}

unfoldable pub increment_peers_connected : ℕ → DaemonStatistics → DaemonStatistics
increment_peers_connected now s = record s {
  total_peers_connected = add_word s.total_peers_connected 1;
  last_update_time = now;
}

-- The peak moves only up.
unfoldable pub update_upload_rate : ℕ → ℕ → DaemonStatistics → DaemonStatistics
update_upload_rate rate now s = record s {
  current_upload_rate = rate;
  peak_upload_rate = if signed_lt s.peak_upload_rate rate then rate else s.peak_upload_rate;
  last_update_time = now;
}

unfoldable pub update_download_rate : ℕ → ℕ → DaemonStatistics → DaemonStatistics
update_download_rate rate now s = record s {
  current_download_rate = rate;
  peak_download_rate = if signed_lt s.peak_download_rate rate then rate else s.peak_download_rate;
  last_update_time = now;
}

-- `Reset`.
unfoldable pub reset : ℕ → DaemonStatistics → DaemonStatistics
reset now s = new_daemon_statistics now

-- What `Snapshot` copies.
pub record DaemonStatisticsSnapshot : Type 0 where
  pub total_bytes_uploaded : ℕ
  pub total_bytes_downloaded : ℕ
  pub total_packages_seeded : ℕ
  pub total_peers_connected : ℕ
  pub current_upload_rate : ℕ
  pub current_download_rate : ℕ
  pub peak_upload_rate : ℕ
  pub peak_download_rate : ℕ
  pub last_update_time : ℕ

abbrev pub snapshot : DaemonStatistics → DaemonStatisticsSnapshot
snapshot s = record {
  total_bytes_uploaded = s.total_bytes_uploaded;
  total_bytes_downloaded = s.total_bytes_downloaded;
  total_packages_seeded = s.total_packages_seeded;
  total_peers_connected = s.total_peers_connected;
  current_upload_rate = s.current_upload_rate;
  current_download_rate = s.current_download_rate;
  peak_upload_rate = s.peak_upload_rate;
  peak_download_rate = s.peak_download_rate;
  last_update_time = s.last_update_time;
}
