-- ===== src/Daemon/Routes.antt =====
-- pkg/daemon/daemon.go, `registerRoutes` and the handlers of daemon.go, and `handlePackageList` of
-- handlers.go: from an HTTP request to a reply and the daemon after it. The text of a reply is
-- left out, its data are kept.
pub mod Reading
pub mod Keeping
pub mod Listing
use libreseed.Prelude.{
  ℕ, suc, ◌+◌, Bool, true, false, not, ◌&&◌, ◌||◌, Option, none, some, List, [], ◌∷◌, ◌++◌, length,
  if◌then◌else◌, Result, ok, err,
}
use libreseed.Text.{Bytes, codes, bytes_eq}
use libreseed.Storage.{Files}
use libreseed.Dht.Announcer
use libreseed.Dht.Announcer.{PackageAnnouncement}
use libreseed.Dht.Client
use libreseed.Dht.Client.{ClientStats}
use libreseed.Dht.Discovery
use libreseed.Dht.Discovery.{DiscoveryResult, DiscoveryStats}
use libreseed.Dht.Peers
use libreseed.Dht.Peers.{PeerInfo}
use libreseed.Daemon.PackageInfo.{PackageInfo}
use libreseed.Daemon.Packages.{World, list_packages}
use libreseed.Daemon.State.{DaemonStateSnapshot, snapshot}
use libreseed.Daemon.Statistics.{DaemonStatistics}
use libreseed.Daemon.Lifecycle
use libreseed.Daemon.AddHandler
use libreseed.Daemon.AddHandler.{AddRequest, AddEnv, handle_package_add}
use libreseed.Daemon.Mux.{
  Handler, health, status, stats, shutdown, package_add, package_list, package_remove, dht_stats,
  dht_announcements, dht_peers, dht_discovery, register_routes, find_route,
}
use libreseed.Daemon.RemoveHandler.{RemoveEnv, delete_method, handle_package_remove}

-- The daemon with its statistics and the disk; `stops` counts the goroutines of `handleShutdown`
-- that are about to call `Stop`.
pub record Server (D : Type 0) : Type 0 where
  pub daemon : Lifecycle.Daemon
  pub stats : DaemonStatistics
  pub files : Files D
  pub stops : ℕ

-- What the package handlers see of it: the client and the announcer are there since `New`.
abbrev pub handler_view : {D : Type 0} → Server D → AddHandler.Daemon D
handler_view s = record {
  world = record { manager = s.daemon.manager; files = s.files };
  enable_dht = s.daemon.enable_dht;
  dht_ready = true;
  announcer = s.daemon.announcer;
  active_packages = s.daemon.state.active_packages;
  total_packages_seeded = s.stats.total_packages_seeded;
}

-- What they write.
abbrev pub with_view : {D : Type 0} → Server D → AddHandler.Daemon D → Server D
with_view s v = record s {
  daemon = record s.daemon {
    manager = v.world.manager;
    announcer = v.announcer;
    state = record s.daemon.state { active_packages = v.active_packages };
  };
  stats = record s.stats { total_packages_seeded = v.total_packages_seeded };
  files = v.world.files;
}

-- What a reply carries.
pub data Body : Type 0 where
  no_body healthy shutdown_initiated : Body
  status_body : DaemonStateSnapshot → Body
  stats_body : DaemonStatistics → Body
  packages_body : ℕ → List PackageInfo → Body
  client_body : ClientStats → Body
  announcements_body : List PackageAnnouncement → Body
  peers_body : List PeerInfo → Body
  discovery_body : List DiscoveryResult → ℕ → DiscoveryStats → Body

pub record Reply : Type 0 where
  pub code : ℕ
  pub body : Body

abbrev pub plain : ℕ → Reply
plain code = record { code = code; body = no_body }

abbrev pub reply : Body → Reply
reply body = record { code = 200; body = body }

pub record Request (D : Type 0) : Type 0 where
  pub method : Bytes
  pub path : Bytes
  pub upload : AddRequest D
  pub package_id : Bytes

-- The clock, the size of the routing table, and what the package handlers meet.
pub record ServeEnv (D : Type 0) : Type 0 where
  pub now : ℕ
  pub num_nodes : ℕ
  pub add : AddEnv D
  pub remove : RemoveEnv D

-- `if r.Method != method { 405 }`.
abbrev pub only : {D : Type 0} → Bytes → Bytes → Server D → Reply × Server D → Reply × Server D
only method wanted s answer = if bytes_eq method wanted then answer else (plain 405, s)

-- `if !d.config.EnableDHT { 503 }`.
abbrev pub with_dht : {D : Type 0} → Server D → Reply × Server D → Reply × Server D
with_dht s answer = if s.daemon.enable_dht then answer else (plain 503, s)

-- `handlePackageList`.
unfoldable pub handle_package_list : {D : Type 0} → Bytes → Server D → Reply × Server D
handle_package_list method s =
    let packages = list_packages s.daemon.manager in
    only method (codes "GET") s (reply (packages_body (length packages) packages), s)

-- `handleStatus`: the fields of the snapshot, one of them the uptime.
unfoldable pub handle_status : {D : Type 0} → Bytes → ℕ → Server D → Reply × Server D
handle_status method now s =
    only method (codes "GET") s (reply (status_body (snapshot s.daemon.state now)), s)

-- `handleStats`: the fields of the snapshot, which are those of the statistics.
unfoldable pub handle_stats : {D : Type 0} → Bytes → Server D → Reply × Server D
handle_stats method s = only method (codes "GET") s (reply (stats_body s.stats), s)

-- `handleShutdown`: the reply does not wait for the stop.
unfoldable pub handle_shutdown : {D : Type 0} → Bytes → Server D → Reply × Server D
handle_shutdown method s =
    only method (codes "POST") s (reply shutdown_initiated, record s { stops = s.stops + 1 })

-- `handleDHTStats`: the client notes the size of its table.
unfoldable pub handle_dht_stats : {D : Type 0} → Bytes → ℕ → Server D → Reply × Server D
handle_dht_stats method num_nodes s =
    let (client_stats, client) = Client.get_stats s.daemon.client num_nodes in
    only method (codes "GET") s (
      with_dht s (
        reply (client_body client_stats),
        record s { daemon = record s.daemon { client = client } },
      ))

-- `handleDHTAnnouncements`.
unfoldable pub handle_dht_announcements : {D : Type 0} → Bytes → Server D → Reply × Server D
handle_dht_announcements method s =
    only method (codes "GET") s
      (with_dht s (reply (announcements_body (Announcer.get_packages s.daemon.announcer)), s))

-- `handleDHTPeers`.
unfoldable pub handle_dht_peers : {D : Type 0} → Bytes → Server D → Reply × Server D
handle_dht_peers method s =
    only method (codes "GET") s
      (with_dht s (reply (peers_body (Peers.get_all_peers s.daemon.peers)), s))

-- `handleDHTDiscovery`: the results that have not expired, and the size with those that have.
unfoldable pub handle_dht_discovery : {D : Type 0} → Bytes → ℕ → Server D → Reply × Server D
handle_dht_discovery method now s =
    let cache = s.daemon.discovery in
    only method (codes "GET") s (
      with_dht s (
        reply (
            discovery_body (Discovery.get_all_results cache now) (Discovery.get_cache_size cache)
              cache.stats),
        s,
      ))

-- A reply of the package handlers.
abbrev pub from_handler : {D : Type 0} → Server D → ℕ × AddHandler.Daemon D → Reply × Server D
from_handler s (code, v) = (plain code, with_view s v)

-- The handler that a route names.
unfoldable pub handle :
    {D : Type 0} → ServeEnv D → Request D → Server D → Handler → Reply × Server D
unfolding handle_package_list handle_status handle_stats handle_shutdown handle_dht_stats
    handle_dht_announcements handle_dht_peers handle_dht_discovery
handle env req s health = only req.method (codes "GET") s (reply healthy, s)
handle env req s status = handle_status req.method env.now s
handle env req s stats = handle_stats req.method s
handle env req s shutdown = handle_shutdown req.method s
handle env req s package_add = from_handler s (
    handle_package_add env.add (record req.upload { is_post = bytes_eq req.method (codes "POST") })
      (handler_view s))
handle env req s package_list = handle_package_list req.method s
handle env req s package_remove = from_handler s (
    handle_package_remove env.remove
      (record { method = delete_method; body_decoded = true; package_id = req.package_id })
      (handler_view s))
handle env req s dht_stats = handle_dht_stats req.method env.num_nodes s
handle env req s dht_announcements = handle_dht_announcements req.method s
handle env req s dht_peers = handle_dht_peers req.method s
handle env req s dht_discovery = handle_dht_discovery req.method env.now s

-- A request to the server of a daemon.
unfoldable pub serve : {D : Type 0} → ServeEnv D → Request D → Server D → Reply × Server D
unfolding handle register_routes
serve env req s = elim (find_route req.method req.path (register_routes s.daemon.enable_dht)) [
  | err code ↦ (plain code, s)
  | ok handler ↦ handle env req s handler
]
