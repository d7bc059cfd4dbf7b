-- ===== src/Commands/Client/Watching.antt =====
-- `lbs status` with the daemon behind it: the PID file that the daemon has written leads the client to
-- the daemon's address.
use libreseed.Prelude.{
  ℕ, ◌≡◌, ◌<◌, ◌^◌, ◌∙◌, refl, ap, Bool, true, Option, none, some, ◌++◌, if◌then◌else◌, Result, ok,
  err,
}
use libreseed.Text.{Bytes, codes, bytes_discrete, bytes_eq, bytes_eq_iff}
use libreseed.Text.Trim.{ends_well}
use libreseed.Commands.Client.{status_of, running, status_command, fetch_stats, read_stats}
use libreseed.Commands.Display.{
  StatsResponse, decode_stats, stats_object, decode_stats-stats_object, DecodeError,
}
use libreseed.Commands.PidFile.{
  Processes, write_pid_file, is_daemon, is_running, get_daemon_addr, remove_pid_file,
}
use libreseed.Commands.PidFile.Reading.{is_running-write_pid_file}
use libreseed.Commands.Requests.{Http, RequestError}
use libreseed.Commands.Requests.EndToEnd.{deliver, request}
use libreseed.Daemon.AddHandler.{AddRequest}
use libreseed.Daemon.Mux.{register_routes, find_route, stats}
use libreseed.Daemon.Routes.{
  Server, Request, ServeEnv, Body, stats_body, no_body, reply, serve, handle, handle_stats,
}
use libreseed.Daemon.Statistics.{DaemonStatistics}

abbrev pub as_option : {A : Type 0} → Result DecodeError A → Option A
as_option (ok a) = some a
as_option (err e) = none

-- JSON carries the object of the statistics; another body does not have these types.
abbrev pub parse_stats : (ℕ → ℕ) → (ℕ → Bytes) → Body → Option StatsResponse
parse_stats float show_time (stats_body s) =
    as_option (decode_stats float (stats_object show_time s))
parse_stats float show_time _ = none

route_of_stats :
    (b : Bool) → find_route (codes "GET") (codes "/stats") (register_routes b) ≡ ok stats
unfolding find_route register_routes bytes_eq bytes_discrete
route_of_stats b = refl

serve-stats :
    {D : Type 0} (env : ServeEnv D) (req : Request D) (s : Server D)
    → req.method ≡ codes "GET"
    → req.path ≡ codes "/stats"
    → serve env req s ≡ (reply (stats_body s.stats), s)
unfolding serve handle handle_stats
serve-stats env req s get path =
    let routed : find_route req.method req.path (register_routes s.daemon.enable_dht) ≡ ok stats =
      rw (get, path) (route_of_stats s.daemon.enable_dht) in
    let is_get : bytes_eq req.method (codes "GET") ≡ true =
      (bytes_eq_iff req.method (codes "GET")).1 get in
    rw (routed, serve, handle, is_get) refl

-- The statistics without what the client does not read.
abbrev pub peaks_only : (ℕ → ℕ) → DaemonStatistics → StatsResponse
peaks_only float s = record {
  bytes_uploaded = 0;
  bytes_downloaded = 0;
  packages_seeded = 0;
  peers_connected = 0;
  upload_rate = 0;
  download_rate = 0;
  peak_upload_rate = float s.peak_upload_rate;
  peak_download_rate = float s.peak_download_rate;
}

-- The reply that a running daemon gives, shown.
status_command-runs :
    {B S : Type 0} (http : Http B S) (parse : B → Option StatsResponse) (empty : B)
    (sys : Processes) (env_addr : Bytes) (file left : Option Bytes) (s : S)
    (r : Result RequestError StatsResponse × S)
    → is_running sys file ≡ (true, left)
    → fetch_stats http parse empty (get_daemon_addr sys.readable env_addr left) s ≡ r
    → status_command http parse empty sys env_addr file s ≡ (status_of r.0, left, r.1)
unfolding status_command
status_command-runs http parse empty sys env_addr file left s r runs fetched =
    rw (runs, fetched) refl

module _ {D : Type 0} (env : ServeEnv D) (parse_url : Bytes → Bytes × Bytes) (upload : AddRequest D)
    (float : ℕ → ℕ) (show_time : ℕ → Bytes) where
  fetch_stats-deliver :
      (addr : Bytes) (s : Server D)
      → (parse_url (addr ++ codes "/stats")).0 ≡ codes "/stats"
      → fetch_stats (deliver env parse_url upload) (parse_stats float show_time) no_body addr s
        ≡ (ok (peaks_only float s.stats), s)
  unfolding fetch_stats read_stats
  fetch_stats-deliver addr s path =
      let url = addr ++ codes "/stats" in
      let served = serve-stats env (request env parse_url upload (codes "GET") url) s refl path in
      rw (served, decode_stats-stats_object float show_time s.stats) refl

  -- Of a daemon that has written the PID file, with a positive number below 2^63 and an address that
  -- does not end in white space, that is found, takes the signal and is the daemon as far as /proc
  -- tells, `lbs status` says that it is running, whatever address the environment has, if the client
  -- can read the file and net/url reads the path of the address; but whatever the daemon has
  -- counted, it shows no packages, no peers and no rates. Neither the file nor the daemon changes.
  pub status_command-write_pid_file :
      (sys : Processes) (pid : ℕ) (addr env_addr : Bytes) (partial file : Option Bytes)
      (s : Server D)
      → 0 < pid
      → pid < 2 ^ 63
      → ends_well addr ≡ true
      → sys.readable ≡ true
      → is_daemon sys pid ≡ true
      → (parse_url ((codes "http://" ++ addr) ++ codes "/stats")).0 ≡ codes "/stats"
      → let written = (write_pid_file true true partial pid addr file).1 in
        status_command
          (deliver env parse_url upload)
          (parse_stats float show_time)
          no_body
          sys
          env_addr
          written
          s
        ≡ (running (peaks_only float s.stats), written, s)
  status_command-write_pid_file sys pid addr env_addr partial file s p b h r alive path =
      let written = (write_pid_file true true partial pid addr file).1 in
      let (to_addr, runs) = is_running-write_pid_file sys pid addr env_addr partial file p b h r in
      status_command-runs (deliver env parse_url upload) (parse_stats float show_time) no_body sys
        env_addr written written s (ok (peaks_only float s.stats), s)
        (runs
          ∙ ap
              (λ (alive : Bool).
                (alive, if alive then written else remove_pid_file sys.removable written))
              alive)
        (ap
            (λ a.
              fetch_stats (deliver env parse_url upload) (parse_stats float show_time) no_body a s)
            (ap (λ b. get_daemon_addr b env_addr written) r ∙ to_addr)
          ∙ fetch_stats-deliver (codes "http://" ++ addr) s path)
