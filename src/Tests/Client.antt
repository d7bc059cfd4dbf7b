-- ===== src/Tests/Client.antt =====
-- `lbs status` of a daemon that runs, and `lbs add` to it.
use libreseed.Prelude.{
  ℕ, ◌≡◌, refl, true, some, none, [], ◌∷◌, ◌++◌, ap, Result, ok, arith, if◌then◌else◌,
}
use libreseed.Text.{Bytes, codes, bytes_eq, bytes_discrete}
use libreseed.Commands.Client.{running, status_command}
use libreseed.Commands.Client.Watching.{parse_stats, peaks_only, status_command-write_pid_file}
use libreseed.Commands.PidFile.{is_daemon}
use libreseed.Commands.Requests.{RequestError, FileSource, add_command, send_form, parsed, body_of}
use libreseed.Commands.Requests.Adding.{
  Carried, replied, parse_object, writing, deliver_body, IsListed, add_command-IsListed,
}
use libreseed.Daemon.Mux.{find_route, register_routes}
use libreseed.Commands.Requests.EndToEnd.{deliver}
use libreseed.Daemon.Routes.{no_body, Server, serve, handle}
use libreseed.Tests.Commands.{sys, addr, addr-ends_well, written}
use libreseed.Tests.Handlers.{sample_request}
use libreseed.Tests.Routes.{server, env, server_added, empty-IsValid}
use libreseed.Tests.Samples.{Document, packed, sample_package}

abbrev stats_url : Bytes → Bytes × Bytes
stats_url url =
    if bytes_eq url (codes "http://127.0.0.1:9091/stats") then (codes "/stats", []) else ([], [])

abbrev show_time : ℕ → Bytes
show_time now = codes "now"

stats_parsed : (stats_url ((codes "http://" ++ addr) ++ codes "/stats")).0 ≡ codes "/stats"
unfolding bytes_eq bytes_discrete
stats_parsed = refl

is_alive : is_daemon sys 4242 ≡ true
unfolding is_daemon bytes_eq
is_alive = refl

status_command-write_pid_file_example :
    status_command
      (deliver env stats_url sample_request)
      (parse_stats (λ n. n) show_time)
      no_body
      sys
      (codes "localhost:1")
      written
      server
    ≡ (running (peaks_only (λ n. n) server.stats), written, server)
status_command-write_pid_file_example =
    status_command-write_pid_file env stats_url sample_request (λ n. n) show_time sys 4242 addr
      (codes "localhost:1") none none server (omega arith) (omega arith) addr-ends_well refl
      is_alive stats_parsed

-- A file that holds the sample package.
abbrev local_files : FileSource Carried
local_files = record {
  is_there = λ _. true;
  contents = λ _. some (codes "lspkg");
  base = λ _. codes "tool";
  encode = λ _. none;
}

abbrev document : Bytes → Document
document _ = packed sample_package

abbrev path_of : Bytes → Bytes
path_of url =
    if bytes_eq url (codes "http://h/packages/list")
    then codes "/packages/list"
    else codes "/packages/add"

add_path : path_of (codes "http://h" ++ codes "/packages/add") ≡ codes "/packages/add"
unfolding bytes_eq bytes_discrete
add_path = refl

list_path : path_of (codes "http://h" ++ codes "/packages/list") ≡ codes "/packages/list"
unfolding bytes_eq bytes_discrete
list_path = refl

abbrev adds : Result RequestError (Unit {0}) × Server Document
adds =
    add_command (deliver_body env document path_of) parse_object (writing local_files)
      (codes "http://h") (codes "tool.lspkg" ∷ codes "tool" ∷ codes "1.0.0" ∷ []) server

added : adds.0 ≡ ok tt
unfolding add_command send_form serve handle find_route register_routes bytes_eq bytes_discrete
added =
    ap
      (λ code.
        parsed parse_object (body_of 201 (record { status = code; body = some (replied no_body) })))
      server_added

add_command-IsListed_example :
    IsListed env document path_of local_files (codes "tool.lspkg") (codes "http://h") adds.1
add_command-IsListed_example =
    add_command-IsListed env document path_of local_files (codes "http://h") (codes "tool.lspkg")
      (codes "tool" ∷ codes "1.0.0" ∷ []) server empty-IsValid add_path list_path added
