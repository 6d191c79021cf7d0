-- ===== src/Proxy/Forward.antt =====
-- `catch_all` of api/main.py: what goes to the OSM service, what comes back, and the table copies that
-- are dropped from a new workspace schema.
use workspaces_backend.Base.{
  ℕ, ℤ, pos, negsuc, Bool, true, false, not, ◌&&◌, ltb, if◌then◌else◌, List, Option, none, some,
  codes_eq, strip,
}
use workspaces_backend.Core.{Result, ok, err, Error, http_exception, not_found_exception}
use workspaces_backend.Security.UserInfo.{UserInfo, effective_role}
use workspaces_backend.Tasking.Schema.{RoleType, lead, validator, contributor}
use workspaces_backend.Workspaces.Schema.{TaskDb, Workspace}
use workspaces_backend.Workspaces.Queries.{get_by_id}
use workspaces_backend.Proxy.Text.{codes}
use workspaces_backend.Proxy.Paths.{workspace_prefix, workspace_schema, begins}
use workspaces_backend.Proxy.Encoding.{accepts_deflate}
use workspaces_backend.Proxy.Headers.{
  Header, Origin, get_header, request_headers, forwarded_headers,
}
use workspaces_backend.Proxy.Resolve.{Method, is_put, is_get, resolve, admit}
use workspaces_backend.Proxy.Review.{Element, flag_review}

-- What Python and its libraries do with text: the value of a digit outside ASCII, the sign of a
-- float, the spelling of a UUID and of a token, and ElementTree's parser and printer.
pub record Python : Type 0 where
  pub others : ℕ → Option ℕ
  pub float : List ℕ → Option Bool
  pub uuid_text : ℕ → List ℕ
  pub token_text : ℕ → List ℕ
  pub fromstring : List ℕ → Option Element
  pub tostring : Element → List ℕ

pub record Request : Type 0 where
  pub method : Method
  pub path : List ℕ
  pub query : List ℕ
  pub headers : List Header
  pub origin : Origin
  pub basic_workspace_id : Option ℕ
  pub body : List ℕ

pub record Upstream : Type 0 where
  pub method : Method
  pub path : List ℕ
  pub query : List ℕ
  pub headers : List Header
  pub content : Option (List ℕ)

infixl 5 ◌>>=◌ ◌>>◌
unfoldable pub ◌>>=◌ : {A B : Type 0} → Result A → (A → Result B) → Result B
ok a >>= k = k a
err e >>= k = err e

abbrev pub ◌>>◌ : {A B : Type 0} → Result A → Result B → Result B
m >> k = m >>= λ _. k

abbrev pub pure : {A : Type 0} → A → Result A
pure a = ok a

abbrev pub or_raise : {A : Type 0} → Error → Option A → Result A
or_raise e none = err e
or_raise e (some a) = ok a

-- the prefix's workspace id and the path without the prefix
abbrev pub prefix_id : Option (ℕ × List ℕ) → Option ℕ
prefix_id none = none
prefix_id (some (id, rest)) = some id

abbrev pub path_behind : List ℕ → Option (ℕ × List ℕ) → List ℕ
path_behind path none = path
path_behind path (some (id, rest)) = rest

abbrev pub is_contributor : RoleType → Bool
is_contributor contributor = true
is_contributor lead = false
is_contributor validator = false

-- `repository.getById`; the ids of workspaces are not negative
abbrev pub workspace_of : UserInfo → ℤ → TaskDb → Result Workspace
workspace_of user (pos w) db = get_by_id user w db
workspace_of user (negsuc w) db =
    err (not_found_exception "Workspace with id {workspace_id} not found")

abbrev pub role_at : UserInfo → ℤ → RoleType
role_at user (pos w) = effective_role user w
role_at user (negsuc w) = contributor

-- `_CHANGESET_CREATE_RE.fullmatch(path)`
abbrev pub creates_changeset : Method → List ℕ → Bool
creates_changeset method path = is_put method && codes_eq path (codes "/api/0.6/changeset/create")

-- The OSM service's host where the client is there, and the task database.
module _ (py : Python) (osm_host : Option (List ℕ)) (db : TaskDb) where
  abbrev pub reviewed : List ℕ → Option Element → Result (List ℕ)
  reviewed body none = err (http_exception 500 "xml.etree.ElementTree.ParseError")
  reviewed body (some root) = ok (py.tostring (flag_review root))

  -- the body of a changeset, with the review tag where the workspace asks for it
  unfoldable pub changeset_content : UserInfo → ℤ → List ℕ → Result (List ℕ)
  changeset_content user w body = do
    workspace ← workspace_of user w db
    if workspace.auto_flag_review && is_contributor (role_at user w)
        then reviewed body (py.fromstring body)
        else ok body

  abbrev pub content_for : UserInfo → Option ℤ → Bool → List ℕ → Result (List ℕ)
  content_for user none creates body = ok body
  content_for user (some w) false body = ok body
  content_for user (some w) true body = changeset_content user w body

  abbrev pub sent_content : Method → List ℕ → Option (List ℕ)
  sent_content method content = if is_get method then none else some content

  -- the rest of `catch_all` up to the request that is sent, once the path is normalised
  unfoldable pub forward_path : UserInfo → Request → Option ℕ → List ℕ → Result Upstream
  forward_path user req prefix path = do
    if begins (codes "/api/v1/") path
        then err (
            http_exception 404
              "No handler for {request.method} {request.url.path}. Check the method and path; this URL is not proxied to OSM.")
        else ok tt
    workspace_id ←
        resolve py.others prefix (get_header (codes "x-workspace") req.headers)
          req.basic_workspace_id
    admit py.others py.uuid_text user req.method path workspace_id
    host ← or_raise (http_exception 503 "OSM proxy client is not initialized") osm_host
    content ← content_for user workspace_id (creates_changeset req.method path) req.body
    pure (record {
      method = req.method;
      path = strip path;
      query = req.query;
      headers =
          request_headers host req.origin workspace_id (py.token_text user.credentials)
            (accepts_deflate py.float (get_header (codes "accept-encoding") req.headers))
            req.headers;
      content = sent_content req.method content;
    })

  unfoldable pub forward : UserInfo → Request → Result Upstream
  forward user req =
      let found = workspace_prefix py.others req.path in
      forward_path user req (prefix_id found) (path_behind req.path found)

-- What the OSM service does with a request.
pub data Sent : Type 0 where
  timed_out not_connected : Sent
  replied : ℕ → List Header → List ℕ → Sent

-- The answer, whether the upstream status is reported to Sentry, and the workspace schema that loses
-- its table copies.
pub record Answer : Type 0 where
  pub status_code : ℕ
  pub headers : List Header
  pub body : List ℕ
  pub reported : Bool
  pub drops_copies : Option ℕ

abbrev pub drop_copies : (ℕ → Option ℕ) → Method → ℕ → List ℕ → Option ℕ
drop_copies others method status path =
    if is_put method && ltb status 300 then workspace_schema others path else none

unfoldable pub answer : (ℕ → Option ℕ) → Method → List ℕ → Sent → Result Answer
answer others method path timed_out = err (http_exception 504 "Upstream OSM service timed out")
answer others method path not_connected =
    err (http_exception 502 "Could not connect to upstream OSM service")
answer others method path (replied status headers body) = ok (record {
  status_code = status;
  headers = forwarded_headers headers;
  body = body;
  reported = not (ltb status 400) && ltb status 600;
  drops_copies = drop_copies others method status path;
})

-- `catch_all`
unfoldable pub catch_all :
    Python → Option (List ℕ) → TaskDb → (Upstream → Sent) → UserInfo → Request → Result Answer
catch_all py osm_host db send user req = do
  upstream ← forward py osm_host db user req
  answer py.others req.method (path_behind req.path (workspace_prefix py.others req.path))
      (send upstream)
