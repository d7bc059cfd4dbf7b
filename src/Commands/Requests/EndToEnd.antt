-- ===== src/Commands/Requests/EndToEnd.antt =====
-- `lbs list` and `lbs remove` with the daemon behind them. JSON carries the data of a reply as they
-- are; what net/url makes of an address is a parameter.
use libreseed.Prelude.{
  ℕ, ◌≡◌, ◌≢◌, ◌∙◌, refl, sym, ap, Bool, true, false, none, some, Option, List, [], ◌∷◌, ◌++◌, map,
  length, ite, arith, ◌==◌, Bool-cases, Result-cases, inl, inr, Result, ok, err,
}
use libreseed.Text.{Bytes, codes, bytes_discrete, bytes_eq}
use libreseed.Commands.Display.{row}
use libreseed.Commands.Requests.{
  Answer, Http, RequestError, not_found, remove_url, read_removed, remove_command, ListResponse,
  list_command, table, answered,
}
use libreseed.Daemon.AddHandler
use libreseed.Daemon.AddHandler.{AddRequest}
use libreseed.Daemon.PackageInfo.{PackageInfo}
use libreseed.Daemon.Packages.{
  PackageManager, World, ManagerError, remove_package, list_packages, package_exists, get_package,
}
use libreseed.Daemon.RemoveHandler.{
  RemoveRequest, RemoveEnv, delete_method, find_listed, withdraw, remove_listed, after_remove,
  handle_package_remove,
}
use libreseed.Daemon.RemoveHandler.Removal.{handle_package_remove_done}
use libreseed.Daemon.Mux.{register_routes, find_route, package_remove}
use libreseed.Daemon.Routes.{
  Server, Request, ServeEnv, Reply, Body, packages_body, no_body, plain, handler_view, with_view,
  serve, handle,
}
use libreseed.Daemon.Routes.Listing.{serve-list}

abbrev pub parse_list : Body → Option ListResponse
parse_list (packages_body n l) = some (record { count = n; packages = l })
parse_list _ = none

abbrev pub parse_any : Body → Option (Unit {0})
parse_any _ = some tt

pub table-rows :
    (infos : List PackageInfo)
    → table (record { count = length infos; packages = infos }) ≡ map row infos
table-rows [] = refl
table-rows (i ∷ infos) = ground arith

abbrev as_request : Bytes → RemoveRequest
as_request id = record { method = delete_method; body_decoded = true; package_id = id }

==_eq : (a b : ℕ) → (a == b) ≡ true → a ≡ b
==_eq a b h = ground arith

after_remove-ne :
    {D : Type 0} (d : AddHandler.Daemon D) (r : Result ManagerError (Unit {0}) × World D)
    → (after_remove d r).0 ≢ 404
unfolding after_remove
after_remove-ne d (err e, w) h = absurd (omega (arith, h))
after_remove-ne d (ok u, w) h = absurd (omega (arith, h))

remove_listed-ne :
    {D : Type 0} (env : RemoveEnv D) (id : Bytes) (d : AddHandler.Daemon D)
    (o : Option (AddHandler.Daemon D))
    → (remove_listed env id d o).0 ≢ 404
unfolding remove_listed
remove_listed-ne env id d none h = absurd (omega (arith, h))
remove_listed-ne env id d (some e) h =
    after_remove-ne e (remove_package env.yaml env.save_env env.refused e.world id) h

find_listed_missing :
    (pm : PackageManager) (req : RemoveRequest)
    → find_listed pm req ≡ err 404
    → package_exists pm req.package_id ≡ false
unfolding find_listed get_package package_exists
find_listed_missing pm req h = ground arith

-- A reply of 404 means that the id is not listed.
missing_of_404 :
    {D : Type 0} (env : RemoveEnv D) (req : RemoveRequest) (d v : AddHandler.Daemon D)
    → handle_package_remove env req d ≡ (404, v)
    → (package_exists d.world.manager req.package_id ≡ false) × (v ≡ d)
unfolding handle_package_remove
missing_of_404 env req d v h = elim (Result-cases (find_listed d.world.manager req)) [
  | inl (code, f) ↦
      let same = rw (f, handle_package_remove) at h in
      let is_404 : code ≡ 404 = ap (λ r. r.0) same in
      (
        find_listed_missing d.world.manager req (f ∙ ap (λ (c : ℕ). err c) is_404),
        sym (ap (λ r. r.1) same),
      )
  | inr (info, f) ↦ absurd (
      remove_listed-ne env req.package_id d (withdraw req.package_id d)
        (ap (λ r. r.0) (rw (f, handle_package_remove) at h)))
]

route_of_remove :
    (b : Bool)
    → find_route (codes "DELETE") (codes "/packages/remove") (register_routes b) ≡ ok package_remove
unfolding find_route register_routes bytes_eq bytes_discrete
route_of_remove b = refl

serve-remove :
    {D : Type 0} (env : ServeEnv D) (req : Request D) (s : Server D)
    → req.method ≡ codes "DELETE"
    → req.path ≡ codes "/packages/remove"
    → let r = handle_package_remove env.remove (as_request req.package_id) (handler_view s) in
      serve env req s ≡ (plain r.0, with_view s r.1)
unfolding serve handle
serve-remove env req s delete remove =
    let routed : find_route req.method req.path (register_routes s.daemon.enable_dht)
        ≡ ok package_remove =
      rw (delete, remove) (route_of_remove s.daemon.enable_dht) in
    rw (routed, serve) refl

module _ {D : Type 0} (env : ServeEnv D) (parse_url : Bytes → Bytes × Bytes)
    (upload : AddRequest D) where
  -- The request that reaches the daemon.
  abbrev pub request : Bytes → Bytes → Request D
  request method url = record {
    method = method;
    path = (parse_url url).0;
    upload = upload;
    package_id = (parse_url url).1;
  }

  abbrev pub as_answer : Reply × Server D → Option (Answer Body) × Server D
  as_answer (r, s) = (some (record { status = r.code; body = some r.body }), s)

  -- The daemon as the server of the client.
  abbrev pub deliver : Http Body (Server D)
  deliver = record {
    request_made = λ _. true;
    send = λ method url _ s. as_answer (serve env (request method url) s);
  }

  -- `lbs list` shows a line for each package of the database, in the order of the reply, and changes
  -- nothing, if net/url reads the path of the address.
  list_command-deliver :
      (addr : Bytes) (s : Server D)
      → (parse_url (addr ++ codes "/packages/list")).0 ≡ codes "/packages/list"
      → list_command deliver parse_list no_body addr [] s
        ≡ (ok (map row (list_packages s.daemon.manager)), s)
  unfolding list_command
  list_command-deliver addr s path =
      let url = addr ++ codes "/packages/list" in
      let served = serve-list env (request (codes "GET") url) s refl path in
      rw served (ap (λ rows. (ok rows, s)) (table-rows (list_packages s.daemon.manager)))

  -- What the results of `lbs remove` say of the database.
  abbrev pub IsRemoved : Bytes → Server D → Result RequestError (Unit {0}) × Server D → Type 0
  IsRemoved id s (ok u, after) =
      (package_exists s.daemon.manager id ≡ true)
      × ((key : Bytes)
          → package_exists after.daemon.manager key
            ≡ ite (bytes_discrete key id) false (package_exists s.daemon.manager key))
  IsRemoved id s (err (not_found key), after) =
      (key ≡ id) × (package_exists s.daemon.manager id ≡ false) × (after ≡ s)
  IsRemoved id s (err e, after) = Unit {0}

  -- The reply of the handler, as the client reads it.
  read-IsRemoved :
      (id : Bytes) (s : Server D) (r : ℕ × AddHandler.Daemon D)
      → handle_package_remove env.remove (as_request id) (handler_view s) ≡ r
      → IsRemoved id s
          (answered (read_removed parse_any id) (as_answer (plain r.0, with_view s r.1)))
  unfolding read_removed
  read-IsRemoved id s (code, v) h = elim (Bool-cases (code == 404)) [
    | inl q ↦
        let (missing, same) =
          missing_of_404 env.remove (as_request id) (handler_view s) v
            (h ∙ ap (λ (c : ℕ). (c, v)) (==_eq code 404 q)) in
        rw q (refl, missing, ap (with_view s) same)
    | inr q ↦ elim (Bool-cases (code == 200)) [
      | inl p ↦
          let gone =
            handle_package_remove_done env.remove (as_request id) (handler_view s) v
              (h ∙ ap (λ (c : ℕ). (c, v)) (==_eq code 200 p)) in
          rw (q, p) (gone.was_listed, gone.listed)
      | inr p ↦ rw (q, p) tt
    ]
  ]

  -- If net/url reads the path and the id of the address, then `lbs remove` succeeds only for a
  -- package that the database listed, and afterwards it lists all but this one; it reports that a
  -- package is not found only if the database does not list it, and then nothing has changed.
  pub remove_command-IsRemoved :
      (addr id : Bytes) (s : Server D)
      → parse_url (remove_url addr id) ≡ (codes "/packages/remove", id)
      → IsRemoved id s (remove_command deliver parse_any no_body addr (id ∷ []) s)
  unfolding remove_command
  remove_command-IsRemoved addr id s path =
      let req = request (codes "DELETE") (remove_url addr id) in
      let named : req.package_id ≡ id = ap (λ p. p.1) path in
      let served = serve-remove env req s refl (ap (λ p. p.0) path) in
      rw (served, named)
        (read-IsRemoved id s (handle_package_remove env.remove (as_request id) (handler_view s))
          refl)
