-- ===== src/Commands/Requests.antt =====
-- `lbs add`, `lbs list` and `lbs remove`: add.go, list.go and remove.go of cmd/lbs. What carries a
-- request to a server and its reply back is a parameter, over the state of that server.
pub mod EndToEnd
pub mod Adding
use libreseed.Prelude.{
  ℕ, ◌≡◌, Bool, true, false, not, ◌||◌, Option, none, some, List, [], ◌∷◌, ◌++◌, map, length, ltb,
  ◌==◌, is_empty, if◌then◌else◌, Result, ok, err,
}
use libreseed.Text.{Bytes, codes}
use libreseed.Daemon.PackageInfo.{PackageInfo}
use libreseed.Commands.Display.{Row, row}

-- What a reply brings: its status and its body, `none` if that cannot be read.
pub record Answer (B : Type 0) : Type 0 where
  pub status : ℕ
  pub body : Option B

-- `send` is `client.Do` with a method, an address and a body: `none` is an error.
pub record Http (B S : Type 0) : Type 0 where
  pub request_made : Bytes → Bool
  pub send : Bytes → Bytes → B → S → Option (Answer B) × S

pub data RequestError : Type 0 where
  usage no_file not_opened no_form no_request no_connection not_read not_parsed : RequestError
  not_found : Bytes → RequestError
  bad_status : ℕ → RequestError

-- The body of a reply with the wanted status.
abbrev pub body_of : {B : Type 0} → ℕ → Answer B → Result RequestError B
body_of wanted answer = elim answer.body [
  | none ↦ err not_read
  | some body ↦ if answer.status == wanted then ok body else err (bad_status answer.status)
]

abbrev pub parsed : {A B : Type 0} → (B → Option A) → Result RequestError B → Result RequestError A
parsed parse (err e) = err e
parsed parse (ok body) = elim (parse body) [ none ↦ err not_parsed | some a ↦ ok a ]

abbrev pub answered :
    {A B S : Type 0}
    → (Answer B → Result RequestError A)
    → Option (Answer B) × S
    → Result RequestError A × S
answered read (none, s) = (err no_connection, s)
answered read (some answer, s) = (read answer, s)

abbrev pub remove_url : Bytes → Bytes → Bytes
remove_url addr id = addr ++ codes "/packages/remove?package_id=" ++ id

-- How `removeCommand` reads a reply: 404 is told apart.
unfoldable pub read_removed :
    {A B : Type 0} → (B → Option A) → Bytes → Answer B → Result RequestError A
read_removed parse id answer = parsed parse (elim answer.body [
  | none ↦ err not_read
  | some body ↦ if answer.status == 404 then err (not_found id) else body_of 200 answer
])

-- `removeCommand`: a nil body is `empty`.
unfoldable pub remove_command :
    {A B S : Type 0}
    → Http B S
    → (B → Option A)
    → B
    → Bytes
    → List Bytes
    → S
    → Result RequestError A × S
unfolding read_removed
remove_command http parse empty addr (id ∷ []) s =
    if not (http.request_made (remove_url addr id))
    then (err no_request, s)
    else answered (read_removed parse id) (http.send (codes "DELETE") (remove_url addr id) empty s)
remove_command http parse empty addr args s = (err usage, s)

-- `listResponse`.
pub record ListResponse : Type 0 where
  pub count : ℕ
  pub packages : List PackageInfo

-- What `listCommand` prints of a response: nothing if the count is 0.
abbrev pub table : ListResponse → List Row
table r = if r.count == 0 then [] else map row r.packages

abbrev pub as_table :
    {S : Type 0} → Result RequestError ListResponse × S → Result RequestError (List Row) × S
as_table (err e, s) = (err e, s)
as_table (ok r, s) = (ok (table r), s)

-- `listCommand`; `http.Get` makes the request and sends it.
unfoldable pub list_command :
    {B S : Type 0}
    → Http B S
    → (B → Option ListResponse)
    → B
    → Bytes
    → List Bytes
    → S
    → Result RequestError (List Row) × S
list_command http parse empty addr (a ∷ args) s = (err usage, s)
list_command http parse empty addr [] s =
    let url = addr ++ codes "/packages/list" in
    if not (http.request_made url)
    then (err no_connection, s)
    else as_table (
        answered (λ answer. parsed parse (body_of 200 answer))
          (http.send (codes "GET") url empty s))

-- The form of `addCommand`: the base name and the content of the file, and the fields.
pub record Form : Type 0 where
  pub filename : Bytes
  pub content : Bytes
  pub name : Bytes
  pub version : Bytes
  pub description : Option Bytes

-- What `addCommand` meets: the file that `os.Stat` and `os.Open` find, the base name of a path, and
-- the writer of the form, `none` if it fails.
pub record FileSource (B : Type 0) : Type 0 where
  pub is_there : Bytes → Bool
  pub contents : Bytes → Option Bytes
  pub base : Bytes → Bytes
  pub encode : Form → Option B

abbrev pub description_of : List Bytes → Option Bytes
description_of [] = none
description_of (d ∷ rest) = if is_empty d then none else some d

-- `addCommand` with its form.
unfoldable pub send_form :
    {A B S : Type 0} → Http B S → (B → Option A) → Bytes → Option B → S → Result RequestError A × S
send_form http parse addr none s = (err no_form, s)
send_form http parse addr (some body) s =
    let url = addr ++ codes "/packages/add" in
    if not (http.request_made url)
    then (err no_request, s)
    else answered (λ answer. parsed parse (body_of 201 answer))
        (http.send (codes "POST") url body s)

-- `addCommand`.
unfoldable pub add_command :
    {A B S : Type 0}
    → Http B S
    → (B → Option A)
    → FileSource B
    → Bytes
    → List Bytes
    → S
    → Result RequestError A × S
unfolding send_form
add_command http parse source addr (path ∷ name ∷ version ∷ rest) s =
    if not (source.is_there path) then (err no_file, s) else elim (source.contents path) [
      | none ↦ (err not_opened, s)
      | some content ↦
          send_form http parse addr
            (source.encode (record {
              filename = source.base path;
              content = content;
              name = name;
              version = version;
              description = description_of rest;
            }))
            s
    ]
add_command http parse source addr args s = (err usage, s)
