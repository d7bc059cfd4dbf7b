-- ===== src/Daemon/Routes/Keeping.antt =====
-- Requests keep the database valid, in any order and whatever the disk does.
use libreseed.Prelude.{
  ◌≡◌, true, ◌&&◌, List, [], ◌∷◌, some, arith, Bool-cases, Option-cases, Result-cases, Result, inl,
  inr, ok, err,
}
use libreseed.Text.{Bytes, codes, bytes_eq}
use libreseed.Daemon.AddHandler
use libreseed.Daemon.AddHandler.{
  AddRequest, AddEnv, accept, info_of, put_file, announce_stored, after_add, store_package,
  handle_package_add, info_hash_of, count_added,
}
use libreseed.Package.Manifest.{Package}
use libreseed.Daemon.PackageInfo.{PackageInfo}
use libreseed.Daemon.Packages.{World, ManagerError, add_package, remove_package}
use libreseed.Daemon.Packages.Invariant.{
  IsValid, add_package-IsValid, remove_package-IsValid, update_announcement_status-IsValid,
}
use libreseed.Daemon.RemoveHandler.{
  RemoveEnv, RemoveRequest, delete_method, find_listed, withdraw, remove_listed, after_remove,
  handle_package_remove,
}
use libreseed.Daemon.Routes.Reading.{IsReader}
use libreseed.Daemon.Mux.{Handler, package_add, package_remove, find_route, register_routes}
use libreseed.Daemon.Routes.{Server, Request, ServeEnv, handle, serve, handler_view}

-- The database that a package handler sees.
abbrev Valid : {D : Type 0} → AddHandler.Daemon D → Type 0
Valid d = IsValid d.world.manager.packages

module _ {D : Type 0} (env : AddEnv D) where
  announce_stored-Valid :
      (info : PackageInfo) (d : AddHandler.Daemon D) → Valid d → Valid (announce_stored env info d)
  unfolding announce_stored
  announce_stored-Valid info d v = elim (Bool-cases (d.enable_dht && d.dht_ready)) [
    | inr q ↦ rw q v
    | inl q ↦ elim (Option-cases (info_hash_of info.package_id)) [
      | inl h ↦ rw (q, h, announce_stored) v
      | inr (k, h) ↦
          rw (q, h, announce_stored)
            (update_announcement_status-IsValid env.yaml env.status_env d.world info.package_id true
              env.status_now v)
    ]
  ]

  after_add-Valid :
      (d : AddHandler.Daemon D) (info : PackageInfo) (r : Result ManagerError (Unit {0}) × World D)
      → IsValid r.1.manager.packages
      → Valid (after_add env d info r).1
  unfolding after_add
  after_add-Valid d info (err e, w) v = v
  after_add-Valid d info (ok u, w) v = announce_stored-Valid info (record d { world = w }) v

  store_package-Valid :
      (req : AddRequest D) (pkg : Package) (d : AddHandler.Daemon D)
      → Valid d
      → Valid (store_package env req pkg d).1
  unfolding store_package
  store_package-Valid req pkg d v = elim (Bool-cases env.write_works) [
    | inr q ↦ rw (q, store_package) v
    | inl q ↦
        let path = env.join d.world.manager.storage_dir req.filename in
        let info = info_of env.prims pkg env.now path in
        let w : World D = record {
          manager = d.world.manager;
          files = put_file path req.content d.world.files;
        } in
        rw (q, store_package)
          (after_add-Valid d info (add_package env.yaml env.save_env w info)
            (add_package-IsValid env.yaml env.save_env w info v))
  ]

  pub handle_package_add-Valid :
      (req : AddRequest D) (d : AddHandler.Daemon D)
      → Valid d
      → Valid (handle_package_add env req d).1
  unfolding handle_package_add
  handle_package_add-Valid req d v = elim (Result-cases (accept env req)) [
    | inl (code, q) ↦ rw (q, handle_package_add) v
    | inr (pkg, q) ↦ rw (q, handle_package_add) (store_package-Valid req pkg d v)
  ]

module _ {D : Type 0} (env : RemoveEnv D) where
  after_remove-Valid :
      (d : AddHandler.Daemon D) (r : Result ManagerError (Unit {0}) × World D)
      → IsValid r.1.manager.packages
      → Valid (after_remove d r).1
  unfolding after_remove
  after_remove-Valid d (err e, w) v = v
  after_remove-Valid d (ok u, w) v = v

  withdraw-Valid :
      (id : Bytes) (d e : AddHandler.Daemon D) → withdraw id d ≡ some e → Valid d → Valid e
  unfolding withdraw
  withdraw-Valid id d e q v = let same : e.world ≡ d.world = ground arith in rw same v

  handle_package_remove-Valid :
      (req : RemoveRequest) (d : AddHandler.Daemon D)
      → Valid d
      → Valid (handle_package_remove env req d).1
  unfolding handle_package_remove remove_listed
  handle_package_remove-Valid req d v = elim (Result-cases (find_listed d.world.manager req)) [
    | inl (code, q) ↦ rw (q, handle_package_remove) v
    | inr (info, q) ↦ elim (Option-cases (withdraw req.package_id d)) [
      | inl p ↦ rw (q, p, handle_package_remove, remove_listed) v
      | inr (e, p) ↦
          rw (q, p, handle_package_remove, remove_listed)
            (after_remove-Valid e
              (remove_package env.yaml env.save_env env.refused e.world req.package_id)
              (remove_package-IsValid env.yaml env.save_env e.world env.refused req.package_id
                (withdraw-Valid req.package_id d e p v)))
    ]
  ]

module _ {D : Type 0} (env : ServeEnv D) where
  handle-manager :
      (req : Request D) (s : Server D) (h : Handler)
      → IsReader h
      → (handle env req s h).1.daemon.manager ≡ s.daemon.manager
  unfolding handle
  handle-manager req s package_add r = absurd r
  handle-manager req s package_remove r = absurd r
  handle-manager req s h r = ground arith

  handle-Valid :
      (req : Request D) (s : Server D) (h : Handler)
      → IsValid s.daemon.manager.packages
      → IsValid (handle env req s h).1.daemon.manager.packages
  unfolding handle
  handle-Valid req s package_add v =
      handle_package_add-Valid env.add
        (record req.upload { is_post = bytes_eq req.method (codes "POST") }) (handler_view s) v
  handle-Valid req s package_remove v =
      handle_package_remove-Valid env.remove
        (record { method = delete_method; body_decoded = true; package_id = req.package_id })
        (handler_view s) v
  handle-Valid req s h v = rw (handle-manager req s h tt) v

  -- A request keeps the database valid.
  pub serve-IsValid :
      (req : Request D) (s : Server D)
      → IsValid s.daemon.manager.packages
      → IsValid (serve env req s).1.daemon.manager.packages
  unfolding serve
  serve-IsValid req s v =
      elim (Result-cases (find_route req.method req.path (register_routes s.daemon.enable_dht))) [
        | inl (code, q) ↦ rw (q, serve) v
        | inr (h, q) ↦ rw (q, serve) (handle-Valid req s h v)
      ]

-- The daemon after a list of requests, each with what the system does then.
abbrev pub serve_all : {D : Type 0} → List (ServeEnv D × Request D) → Server D → Server D
serve_all [] s = s
serve_all ((env, req) ∷ rest) s = serve_all rest (serve env req s).1

-- Requests of any kind, in any order and whatever the disk does at each, keep the database valid:
-- one entry for each id, under its own id, and each entry passes validation.
pub serve_all-IsValid :
    {D : Type 0} (calls : List (ServeEnv D × Request D)) (s : Server D)
    → IsValid s.daemon.manager.packages
    → IsValid (serve_all calls s).daemon.manager.packages
serve_all-IsValid [] s v = v
serve_all-IsValid ((env, req) ∷ rest) s v =
    serve_all-IsValid rest (serve env req s).1 (serve-IsValid env req s v)
