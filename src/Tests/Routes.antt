-- ===== src/Tests/Routes.antt =====
-- Requests to a daemon without packages: one is added and listed.
use mathlib.Core.List.{Mem}
use mathlib.Core.Option.{none, some}
use libreseed.Prelude.{◌≡◌, refl, ap, true, List, [], ◌∷◌, drop, length}
use libreseed.Text.{Bytes, codes, bytes_eq, bytes_discrete}
use libreseed.Package.Manifest.{Package}
use libreseed.Daemon.PackageInfo.{PackageInfo}
use libreseed.Daemon.Packages.Invariant.{IsValid}
use libreseed.Daemon.Lifecycle.{new_daemon}
use libreseed.Daemon.Statistics.{new_daemon_statistics}
use libreseed.Dht.Client.{new_client}
use libreseed.Daemon.Mux.{find_route, register_routes}
use libreseed.Daemon.Routes.{
  Server, Request, ServeEnv, reply, packages_body, no_body, serve, handle,
}
use libreseed.Daemon.Routes.Reading.{IsSame, serve-IsSame}
use libreseed.Daemon.Routes.Keeping.{serve_all, serve_all-IsValid}
use libreseed.Daemon.Routes.Listing.{serve_list-add}
use libreseed.Commands.Requests.{remove_url, remove_command}
use libreseed.Commands.Requests.EndToEnd.{deliver, parse_any, IsRemoved, remove_command-IsRemoved}
use libreseed.Tests.Samples.{Document, empty_manager, sample_info}
use libreseed.Tests.Handlers.{sample_env, sample_request, remove_env, sample_created}

abbrev pub server : Server Document
server = record {
  daemon = new_daemon true empty_manager (new_client none) 0;
  stats = new_daemon_statistics 0;
  files = [];
  stops = 0;
}

abbrev pub env : ServeEnv Document
env = record { now = 8; num_nodes = 5; add = sample_env; remove = remove_env }

abbrev adding : Request Document
adding = record {
  method = codes "POST";
  path = codes "/packages/add";
  upload = sample_request;
  package_id = [];
}

abbrev listing : Request Document
listing = record adding { method = codes "GET"; path = codes "/packages/list" }

abbrev removing : Request Document
removing = record adding {
  method = codes "DELETE";
  path = codes "/packages/remove";
  package_id = sample_info.package_id;
}

pub empty-IsValid : IsValid server.daemon.manager.packages
empty-IsValid = record { distinct = tt; keyed = tt; well_formed = tt }

serve-IsSame_example : IsSame server (serve env listing server).1
serve-IsSame_example = serve-IsSame env listing server refl

serve_all-IsValid_example :
    IsValid
      (serve_all
        ((env, adding) ∷ (env, listing) ∷ (env, removing) ∷ [])
        server).daemon.manager.packages
serve_all-IsValid_example =
    serve_all-IsValid ((env, adding) ∷ (env, listing) ∷ (env, removing) ∷ []) server empty-IsValid

pub server_added : (serve env adding server).0.code ≡ 201
unfolding serve handle find_route register_routes bytes_eq bytes_discrete
server_added = ap (λ r. r.0) sample_created

serve_list-add_example :
    (pkg : Package) × (info : PackageInfo) × (infos : List PackageInfo) × (env.add.unmarshal_package
        adding.upload.content
      ≡ some pkg)
    × (info.package_id ≡ pkg.package_id)
    × Mem info infos
    × ((serve env listing (serve env adding server).1).0
        ≡ reply (packages_body (length infos) infos))
serve_list-add_example =
    serve_list-add env env adding listing server empty-IsValid refl refl refl refl server_added

-- The address of the client, and what net/url makes of it.
abbrev parse_url : Bytes → Bytes × Bytes
parse_url url = (codes "/packages/remove", drop 36 url)

remove_parsed :
    parse_url (remove_url (codes "http://h") sample_info.package_id)
    ≡ (codes "/packages/remove", sample_info.package_id)
unfolding bytes_eq bytes_discrete
remove_parsed = refl

remove_command-IsRemoved_example :
    IsRemoved env parse_url sample_request sample_info.package_id (serve env adding server).1 (
      remove_command
        (deliver env parse_url sample_request)
        parse_any
        no_body
        (codes "http://h")
        (sample_info.package_id ∷ [])
        (serve env adding server).1)
remove_command-IsRemoved_example =
    remove_command-IsRemoved env parse_url sample_request (codes "http://h") sample_info.package_id
      (serve env adding server).1 remove_parsed
