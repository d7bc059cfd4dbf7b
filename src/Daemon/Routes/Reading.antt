-- ===== src/Daemon/Routes/Reading.antt =====
-- GET requests read: HTTP calls such a method safe.
use libreseed.Prelude.{◌≡◌, refl, Bool, true, false, arith, All, Result-cases, inl, inr}
use libreseed.Text.{codes, bytes_eq, bytes_discrete}
use libreseed.Dht.Client
use libreseed.Daemon.Mux.{
  Handler, package_add, package_remove, takes, find_route, register_routes, find_route-All,
}
use libreseed.Daemon.Routes.{Server, Request, ServeEnv, handle, serve}

-- The handlers that do not change a package.
abbrev pub IsReader : Handler → Type 0
IsReader package_add = ⊥
IsReader package_remove = ⊥
IsReader _ = Unit {0}

-- The daemon is the same but for the statistics of the client.
pub record IsSame {D : Type 0} (s after : Server D) : Type 0 where
  pub manager : after.daemon.manager ≡ s.daemon.manager
  pub announcer : after.daemon.announcer ≡ s.daemon.announcer
  pub peers : after.daemon.peers ≡ s.daemon.peers
  pub discovery : after.daemon.discovery ≡ s.daemon.discovery
  pub state : after.daemon.state ≡ s.daemon.state
  pub started : after.daemon.client.started ≡ s.daemon.client.started
  pub statistics : after.stats ≡ s.stats
  pub files : after.files ≡ s.files
  pub stops : after.stops ≡ s.stops

routes-IsReader :
    (b : Bool)
    → All (λ p. takes p.method (codes "GET") ≡ true → IsReader p.handler) (register_routes b)
unfolding register_routes bytes_eq
routes-IsReader true = ground arith
routes-IsReader false = ground arith

get-ne-post : bytes_eq (codes "GET") (codes "POST") ≡ false
unfolding bytes_eq bytes_discrete
get-ne-post = refl

module _ {D : Type 0} (env : ServeEnv D) (req : Request D) (s : Server D) where
  IsSame-refl : IsSame s s
  IsSame-refl = ground arith

  handle-IsSame :
      (h : Handler) → req.method ≡ codes "GET" → IsReader h → IsSame s (handle env req s h).1
  unfolding handle Client.get_stats
  handle-IsSame package_add m r = absurd r
  handle-IsSame package_remove m r = absurd r
  handle-IsSame h m r = ground (arith, get-ne-post)

  -- A GET request, whatever its path, changes nothing of the daemon but the statistics of the DHT
  -- client: not the packages, the announcements, the peers, the cache, the state, the counters
  -- and the disk, and it starts no shutdown.
  pub serve-IsSame : req.method ≡ codes "GET" → IsSame s (serve env req s).1
  unfolding serve
  serve-IsSame m =
      elim (Result-cases (find_route req.method req.path (register_routes s.daemon.enable_dht))) [
        | inl (code, q) ↦ rw (q, serve) IsSame-refl
        | inr (h, q) ↦
            rw (q, serve)
              (handle-IsSame h m (
                find_route-All IsReader (codes "GET") req.path (register_routes s.daemon.enable_dht)
                  h (routes-IsReader s.daemon.enable_dht) (rw m at q)))
      ]
