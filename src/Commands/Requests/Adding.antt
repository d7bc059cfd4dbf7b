-- ===== src/Commands/Requests/Adding.antt =====
-- `lbs add` and then `lbs list`, with the daemon behind them. Forms and JSON carry their data as they
-- are; what net/url makes of an address, and the document that bytes are, are parameters.
use mathlib.Core.List.{Mem}
use libreseed.Prelude.{
  ℕ, ◌≡◌, refl, ap, true, false, none, some, Option, List, [], ◌∷◌, ◌++◌, map, length, arith,
  Bool-cases, Option-cases, inl, inr, ok,
}
use libreseed.Text.{Bytes, codes}
use libreseed.Commands.Display.{row}
use libreseed.Commands.Requests.{
  Answer, Http, Form, FileSource, ListResponse, add_command, send_form, list_command, body_of,
  parsed, description_of,
}
use libreseed.Commands.Requests.EndToEnd.{table-rows}
use libreseed.Daemon.AddHandler.{AddRequest}
use libreseed.Daemon.PackageInfo.{PackageInfo}
use libreseed.Daemon.Packages.Invariant.{IsValid}
use libreseed.Daemon.Routes.{Server, Request, ServeEnv, Reply, Body, packages_body, reply, serve}
use libreseed.Daemon.Routes.Listing.{serve_list-add}
use libreseed.Package.Manifest.{Package}

-- The body of a request or of a reply.
pub data Carried : Type 0 where
  nothing : Carried
  form : Form → Carried
  replied : Body → Carried

abbrev pub parse_listed : Carried → Option ListResponse
parse_listed (replied (packages_body n l)) = some (record { count = n; packages = l })
parse_listed _ = none

abbrev pub parse_object : Carried → Option (Unit {0})
parse_object _ = some tt

-- A local file system, with forms written as they are.
abbrev pub writing : FileSource Carried → FileSource Carried
writing source = record source { encode = λ f. some (form f) }

status_of_read :
    (code : ℕ) (body : Carried)
    → parsed parse_object (body_of 201 (record { status = code; body = some body })) ≡ ok tt
    → code ≡ 201
status_of_read code body h = ground arith

module _ {D : Type 0} (env : ServeEnv D) (document : Bytes → D) (parse_url : Bytes → Bytes) where
  -- What the daemon reads of a body.
  abbrev pub upload_of : Carried → AddRequest D
  upload_of (form f) = record {
    is_post = true;
    form_parsed = true;
    file_found = true;
    file_read = true;
    content = document f.content;
    filename = f.filename;
  }
  upload_of _ = record {
    is_post = true;
    form_parsed = false;
    file_found = false;
    file_read = false;
    content = document [];
    filename = [];
  }

  abbrev pub received : Bytes → Bytes → Carried → Request D
  received method url body = record {
    method = method;
    path = parse_url url;
    upload = upload_of body;
    package_id = [];
  }

  abbrev pub as_answer : Reply × Server D → Option (Answer Carried) × Server D
  as_answer (r, s) = (some (record { status = r.code; body = some (replied r.body) }), s)

  -- The daemon as the server of the client.
  abbrev pub deliver_body : Http Carried (Server D)
  deliver_body = record {
    request_made = λ _. true;
    send = λ method url body s. as_answer (serve env (received method url body) s);
  }

  list_command-replied :
      (addr : Bytes) (s : Server D) (infos : List PackageInfo)
      → (serve env (received (codes "GET") (addr ++ codes "/packages/list") nothing) s).0
        ≡ reply (packages_body (length infos) infos)
      → (list_command deliver_body parse_listed nothing addr [] s).0 ≡ ok (map row infos)
  unfolding list_command
  list_command-replied addr s infos served = rw served (ap (λ rows. ok rows) (table-rows infos))

  -- What `lbs list` shows after a successful `lbs add`.
  abbrev pub IsListed : FileSource Carried → Bytes → Bytes → Server D → Type 0
  IsListed source path addr after =
      (content : Bytes) × (pkg : Package) × (info : PackageInfo) × (infos : List PackageInfo)
      × (source.contents path ≡ some content)
      × (env.add.unmarshal_package (document content) ≡ some pkg)
      × (info.package_id ≡ pkg.package_id)
      × Mem info infos
      × ((list_command deliver_body parse_listed nothing addr [] after).0 ≡ ok (map row infos))

  -- If net/url reads the paths of the addresses and the database is valid, then after an `lbs add`
  -- that succeeds the file held a package, and `lbs list` succeeds and shows a line for a package of
  -- the same id.
  pub add_command-IsListed :
      (source : FileSource Carried) (addr path : Bytes) (args : List Bytes) (s : Server D)
      → IsValid s.daemon.manager.packages
      → parse_url (addr ++ codes "/packages/add") ≡ codes "/packages/add"
      → parse_url (addr ++ codes "/packages/list") ≡ codes "/packages/list"
      → let r = add_command deliver_body parse_object (writing source) addr (path ∷ args) s in
        r.0 ≡ ok tt → IsListed source path addr r.1
  unfolding add_command send_form
  add_command-IsListed source addr path [] s v add list done = absurd (cc done)
  add_command-IsListed source addr path (name ∷ []) s v add list done = absurd (cc done)
  add_command-IsListed source addr path (name ∷ version ∷ rest) s v add list done =
      elim (Bool-cases (source.is_there path)) [
        | inl there ↦ elim (Option-cases (source.contents path)) [
          | inl missing ↦ absurd (cc (rw (there, missing) at done))
          | inr (content, found) ↦
              let body = form (record {
                filename = source.base path;
                content = content;
                name = name;
                version = version;
                description = description_of rest;
              }) in
              let req = received (codes "POST") (addr ++ codes "/packages/add") body in
              let list_req = received (codes "GET") (addr ++ codes "/packages/list") nothing in
              let answer = (serve env req s).0 in
              let created =
                status_of_read answer.code (replied answer.body) (rw (there, found) at done) in
              let (pkg, info, infos, parsed, same, listed, replies) =
                serve_list-add env env req list_req s v refl add refl list created in
              rw (there, found)
                (
                  content,
                  pkg,
                  info,
                  infos,
                  refl,
                  parsed,
                  same,
                  listed,
                  list_command-replied addr (serve env req s).1 infos replies,
                )
        ]
        | inr missing ↦ absurd (cc (rw missing at done))
      ]
