-- ===== src/Examples/Proxying.antt =====
-- Requests that the proxy sends on.
use workspaces_backend.Base.{ℕ, pos, ◌≡◌, refl, true, false, List, [], ◌∷◌, none, some}
use workspaces_backend.Core.{ok}
use workspaces_backend.Security.UserInfo.{is_workspace_contributor}
use workspaces_backend.Workspaces.Schema.{TaskDb}
use workspaces_backend.Examples.Data.{mary}
use workspaces_backend.Proxy.Text.{codes, str_of}
use workspaces_backend.Proxy.Paths.{
  workspace_prefix, after_literal, line, prefix_tail, prefix_digits,
}
use workspaces_backend.Proxy.Encoding.{accepts_deflate}
use workspaces_backend.Proxy.Headers.{
  Header, Origin, header, get_header, request_headers, anonymous_headers,
}
use workspaces_backend.Proxy.Resolve.{post, get, resolve, of_header, admit}
use workspaces_backend.Proxy.Forward.{
  Python, Request, Upstream, forward, forward_path, prefix_id, path_behind, ◌>>=◌,
}
use workspaces_backend.Proxy.Capabilities.{forward_capabilities, manifest_path}
use workspaces_backend.Proxy.Properties.Access.{ForWorkspace, Tenantless, forward-IsAuthorized}
use workspaces_backend.Proxy.Properties.Prefix.{with_prefix, with_header, forward-prefix}
use workspaces_backend.Proxy.Properties.Sets.{IsAnonymous}
use workspaces_backend.Proxy.Properties.Manifest.{IsStripped, forward_capabilities-IsAnonymous}
use workspaces_backend.Base.{◌⊎◌}

-- Digits are ASCII, floats are positive and no body parses.
abbrev python : Python
python = record {
  others = λ _. none;
  float = λ _. some true;
  uuid_text = λ n. str_of n [];
  token_text = λ n. str_of n [];
  fromstring = λ _. none;
  tostring = λ _. [];
}

abbrev tables : TaskDb
tables = record { workspaces = []; long_quests = []; imagery = []; next_workspace_id = 1 }

abbrev origin : Origin
origin = record { client_host = codes "10.0.0.7"; hostname = codes "api"; scheme = codes "https" }

abbrev sent_headers : List Header
sent_headers =
    header (codes "Authorization") (codes "Basic x")
    ∷ header (codes "Connection") (codes "close")
    ∷ header (codes "Accept") (codes "*/*")
    ∷ []

abbrev request : List ℕ → Request
request path = record {
  method = post;
  path = path;
  query = [];
  headers = sent_headers;
  origin = origin;
  basic_workspace_id = some 1;
  body = [];
}

abbrev upstream : Upstream
upstream = record {
  method = post;
  path = codes "/map";
  query = [];
  headers = request_headers (codes "osm") origin (some (pos 1)) (str_of 0 []) false sent_headers;
  content = some [];
}

forwarded :
    forward python (some (codes "osm")) tables mary (request (codes "/workspace/1/map"))
    ≡ ok upstream
unfolding forward forward_path workspace_prefix after_literal line prefix_tail prefix_digits resolve
    of_header admit is_workspace_contributor accepts_deflate get_header ◌>>=◌
forwarded = refl

forward-IsAuthorized_example :
    ForWorkspace python
      (some (codes "osm"))
      tables
      mary
      (request (codes "/workspace/1/map"))
      (prefix_id (workspace_prefix python.others (codes "/workspace/1/map")))
      upstream
    ⊎ Tenantless python
        (some (codes "osm"))
        tables
        mary
        (request (codes "/workspace/1/map"))
        (prefix_id (workspace_prefix python.others (codes "/workspace/1/map")))
        (path_behind
          (codes "/workspace/1/map")
          (workspace_prefix python.others (codes "/workspace/1/map")))
        upstream
forward-IsAuthorized_example =
    forward-IsAuthorized python (some (codes "osm")) tables mary
      (request (codes "/workspace/1/map")) upstream forwarded

one_line : line (codes "map") ≡ some (codes "map")
unfolding line
one_line = refl

plain : workspace_prefix python.others (codes "/map") ≡ none
unfolding workspace_prefix after_literal
plain = refl

silent : get_header (codes "x-workspace") sent_headers ≡ none
unfolding get_header
silent = refl

forward-prefix_example :
    forward python
      (some (codes "osm"))
      tables
      mary
      (with_prefix python (some (codes "osm")) tables mary (request []) 1 (codes "/map"))
    ≡ forward python
        (some (codes "osm"))
        tables
        mary
        (with_header python (some (codes "osm")) tables mary (request []) 1 (codes "/map"))
forward-prefix_example =
    forward-prefix python (some (codes "osm")) tables mary (request []) 1 (codes "map") one_line
      plain silent

abbrev capabilities_request : Upstream
capabilities_request = record {
  method = get;
  path = codes "/api/capabilities.json";
  query = [];
  headers = anonymous_headers (codes "osm") origin sent_headers;
  content = none;
}

capabilities_sent :
    forward_capabilities
      (λ _. none)
      (some (codes "osm"))
      (request (codes "/workspace/12/api/capabilities.json"))
    ≡ ok capabilities_request
unfolding forward_capabilities manifest_path workspace_prefix after_literal line prefix_tail
    prefix_digits ◌>>=◌
capabilities_sent = refl

forward_capabilities-IsAnonymous_example :
    IsAnonymous capabilities_request.headers
    × IsStripped (λ _. none) (codes "/workspace/12/api/capabilities.json") capabilities_request.path
    × (capabilities_request.content ≡ none)
    × (capabilities_request.method ≡ get)
forward_capabilities-IsAnonymous_example =
    forward_capabilities-IsAnonymous (λ _. none) (some (codes "osm"))
      (request (codes "/workspace/12/api/capabilities.json")) capabilities_request capabilities_sent
