-- ===== src/Daemon/Routes/Listing.antt =====
-- What one request writes, the next reads.
use mathlib.Core.List.{Mem, mem-cons_self, mem-cons}
use libreseed.Prelude.{
  ℕ, Bool, ◌≡◌, ◌∙◌, ap, refl, true, List, [], ◌∷◌, arith, length, some, Option-cases, inl, inr, ok,
  ite,
}
use libreseed.Text.{Bytes, codes, bytes_eq, bytes_discrete, bytes_eq_iff}
use libreseed.GoMap.{GoMap, values, lookup}
use libreseed.GoMap.Keys.{lookup-Keyed}
use libreseed.Package.Manifest.{Package}
use libreseed.Daemon.AddHandler
use libreseed.Daemon.AddHandler.{handle_package_add}
use libreseed.Daemon.AddHandler.Accepting.{accept-Authentic}
use libreseed.Daemon.AddHandler.Storing.{handle_package_add_created}
use libreseed.Daemon.PackageInfo.{PackageInfo}
use libreseed.Daemon.Packages.{PackageManager, list_packages, package_exists}
use libreseed.Daemon.Packages.Invariant.{IsValid}
use libreseed.Daemon.Mux.{find_route, register_routes, package_add, package_list}
use libreseed.Daemon.Routes.{
  Server, Request, ServeEnv, packages_body, reply, handle, handle_package_list, handler_view,
  with_view, plain, serve,
}
use libreseed.Daemon.Routes.Keeping.{serve-IsValid}

lookup-Mem :
    (k : Bytes) (v : PackageInfo) (m : GoMap Bytes PackageInfo)
    → lookup bytes_discrete k m ≡ some v
    → Mem v (values m)
unfolding lookup
lookup-Mem k v [] e = absurd (cc)
lookup-Mem k v ((j, w) ∷ m) e = elim (bytes_discrete k j) [
  | yes q ↦ let same : w ≡ v = ground arith in rw same mem-cons_self
  | no q ↦ (mem-cons).1 ∣ inr (lookup-Mem k v m (ground arith)) ∣₁
]

ite_self : (k : Bytes) (b : Bool) → ite (bytes_discrete k k) true b ≡ true
ite_self k b = ground arith

found_of :
    (pm : PackageManager) (id : Bytes)
    → package_exists pm id ≡ true
    → (info : PackageInfo) × (lookup bytes_discrete id pm.packages ≡ some info)
unfolding package_exists
found_of pm id h = elim (Option-cases (lookup bytes_discrete id pm.packages)) [
  | inl q ↦ absurd (ground arith)
  | inr found ↦ found
]

route_of_add :
    (b : Bool)
    → find_route (codes "POST") (codes "/packages/add") (register_routes b) ≡ ok package_add
unfolding find_route register_routes bytes_eq bytes_discrete
route_of_add b = refl

route_of_list :
    (b : Bool)
    → find_route (codes "GET") (codes "/packages/list") (register_routes b) ≡ ok package_list
unfolding find_route register_routes bytes_eq bytes_discrete
route_of_list b = refl

-- A GET of the list returns what the database holds, and changes nothing.
pub serve-list :
    {D : Type 0} (env : ServeEnv D) (req : Request D) (t : Server D)
    → req.method ≡ codes "GET"
    → req.path ≡ codes "/packages/list"
    → let infos = list_packages t.daemon.manager in
      serve env req t ≡ (reply (packages_body (length infos) infos), t)
unfolding serve handle handle_package_list
serve-list env req t get list =
    let routed : find_route req.method req.path (register_routes t.daemon.enable_dht)
        ≡ ok package_list =
      rw (get, list) (route_of_list t.daemon.enable_dht) in
    let is_get : bytes_eq req.method (codes "GET") ≡ true =
      (bytes_eq_iff req.method (codes "GET")).1 get in
    rw (routed, serve, handle, is_get) refl

module _ {D : Type 0} (env env' : ServeEnv D) (req list_req : Request D) (s : Server D) where
  -- What the handler is given and what it returns.
  abbrev added : ℕ × AddHandler.Daemon D
  added =
      handle_package_add env.add
        (record req.upload { is_post = bytes_eq req.method (codes "POST") }) (handler_view s)

  serve-add :
      req.method ≡ codes "POST"
      → req.path ≡ codes "/packages/add"
      → serve env req s ≡ (plain added.0, with_view s added.1)
  unfolding serve handle
  serve-add post add =
      let routed : find_route req.method req.path (register_routes s.daemon.enable_dht)
          ≡ ok package_add =
        rw (post, add) (route_of_add s.daemon.enable_dht) in
      rw (routed, serve) refl

  -- After a POST to /packages/add that was answered with 201, on a daemon with a valid database, a
  -- GET of /packages/list is answered with packages that have the id of the uploaded package
  -- among them, and with their number.
  pub serve_list-add :
      IsValid s.daemon.manager.packages
      → req.method ≡ codes "POST"
      → req.path ≡ codes "/packages/add"
      → list_req.method ≡ codes "GET"
      → list_req.path ≡ codes "/packages/list"
      → (serve env req s).0.code ≡ 201
      → (pkg : Package) × (info : PackageInfo) × (infos : List PackageInfo)
        × (env.add.unmarshal_package req.upload.content ≡ some pkg)
        × (info.package_id ≡ pkg.package_id)
        × Mem info infos
        × ((serve env' list_req (serve env req s).1).0 ≡ reply (packages_body (length infos) infos))
  unfolding list_packages
  serve_list-add v post add get list created =
      let served = serve-add post add in
      let whole : added ≡ (201, added.1) = ap (λ code. (code, added.1)) (rw served at created) in
      let upload = record req.upload { is_post = bytes_eq req.method (codes "POST") } in
      let (pkg, stored) =
        handle_package_add_created env.add upload (handler_view s) added.1 whole in
      let after = added.1.world.manager in
      let there : package_exists after pkg.package_id ≡ true =
        stored.listed pkg.package_id ∙ ite_self pkg.package_id _ in
      let (info, found) = found_of after pkg.package_id there in
      let valid : IsValid after.packages = rw served at (serve-IsValid env req s v) in
      (
        pkg,
        info,
        values after.packages,
        (accept-Authentic env.add upload pkg stored.accepted).0,
        lookup-Keyed bytes_discrete (λ i. i.package_id) pkg.package_id info after.packages
            valid.keyed found,
        lookup-Mem pkg.package_id info after.packages found,
        rw served (ap (λ r. r.0) (serve-list env' list_req (with_view s added.1) get list)),
      )
