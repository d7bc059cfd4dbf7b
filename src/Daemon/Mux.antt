-- ===== src/Daemon/Mux.antt =====
-- pkg/daemon/daemon.go, `registerRoutes`: which handler a request goes to.
use libreseed.Prelude.{
  ℕ, ◌≡◌, sym, Bool, true, ◌&&◌, ◌||◌, Option, none, some, List, [], ◌∷◌, All, Bool-cases, inl, inr,
  arith, if◌then◌else◌, Result, ok, err,
}
use libreseed.Text.{Bytes, codes, bytes_eq}

pub data Handler : Type 0 where
  health status stats shutdown package_add package_list package_remove dht_stats dht_announcements
        dht_peers dht_discovery :
      Handler

-- A pattern of the mux: a method, if it names one, and a path.
pub record Pattern : Type 0 where
  pub method : Option Bytes
  pub path : Bytes
  pub handler : Handler

abbrev pub any_method : Bytes → Handler → Pattern
any_method path handler = record { method = none; path = path; handler = handler }

abbrev pub on_method : Bytes → Bytes → Handler → Pattern
on_method method path handler = record { method = some method; path = path; handler = handler }

abbrev pub dht_routes : List Pattern
dht_routes =
    any_method (codes "/dht/stats") dht_stats
    ∷ any_method (codes "/dht/announcements") dht_announcements
    ∷ any_method (codes "/dht/peers") dht_peers
    ∷ any_method (codes "/dht/discovery") dht_discovery
    ∷ []

-- `registerRoutes`.
unfoldable pub register_routes : Bool → List Pattern
register_routes enable_dht =
    any_method (codes "/health") health
    ∷ any_method (codes "/status") status
    ∷ any_method (codes "/stats") stats
    ∷ any_method (codes "/shutdown") shutdown
    ∷ on_method (codes "POST") (codes "/packages/add") package_add
    ∷ on_method (codes "GET") (codes "/packages/list") package_list
    ∷ on_method (codes "DELETE") (codes "/packages/remove") package_remove
    ∷ (if enable_dht then dht_routes else [])

-- A pattern with the method GET takes HEAD too.
abbrev pub takes : Option Bytes → Bytes → Bool
takes none m = true
takes (some method) m =
    bytes_eq m method || (bytes_eq method (codes "GET") && bytes_eq m (codes "HEAD"))

-- The choice of `http.ServeMux` among patterns that are all different paths without a wildcard:
-- 404 if no pattern has the path, 405 if it has another method.
unfoldable pub find_route : Bytes → Bytes → List Pattern → Result ℕ Handler
find_route method path [] = err 404
find_route method path (p ∷ rest) =
    let others = find_route method path rest in
    if bytes_eq path p.path
    then (if takes p.method method then ok p.handler else err 405)
    else others

-- What holds of the handlers of the patterns that take a method holds of the handler of a route.
pub find_route-All :
    (P : Handler → Type 0) (method path : Bytes) (ps : List Pattern) (h : Handler)
    → All (λ p. takes p.method method ≡ true → P p.handler) ps
    → find_route method path ps ≡ ok h
    → P h
unfolding find_route
find_route-All P method path [] h a e = absurd (cc)
find_route-All P method path (p ∷ ps) h a e = elim (Bool-cases (bytes_eq path p.path)) [
  | inr q ↦ find_route-All P method path ps h a.1 (ground arith)
  | inl q ↦ elim (Bool-cases (takes p.method method)) [
    | inl t ↦ let same : p.handler ≡ h = ground arith in rw (sym same) (a.0 t)
    | inr t ↦ absurd (ground arith)
  ]
]
