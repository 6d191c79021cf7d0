-- ===== src/Proxy/Headers.antt =====
-- The header lists of api/main.py: which headers are dropped and which are set.
use workspaces_backend.Base.{
  ℕ, Bool, true, false, not, if◌then◌else◌, List, [], ◌∷◌, ◌++◌, map, filter, any, Option, none,
  some, codes_eq, ℤ,
}
use workspaces_backend.Security.Credentials.{lower}
use workspaces_backend.Proxy.Text.{codes, str_of_int}

pub record Header : Type 0 where
  pub name : List ℕ
  pub value : List ℕ

abbrev pub names : List ℕ → List (List ℕ) → Bool
names name = any (λ n. codes_eq name n)

-- `HOP_BY_HOP_HEADERS`
abbrev pub hop_by_hop_headers : List (List ℕ)
hop_by_hop_headers =
    codes "connection"
    ∷ codes "content-length"
    ∷ codes "keep-alive"
    ∷ codes "proxy-authenticate"
    ∷ codes "proxy-authorization"
    ∷ codes "te"
    ∷ codes "trailers"
    ∷ codes "transfer-encoding"
    ∷ codes "upgrade"
    ∷ []

-- `STRIP_REQUEST_HEADERS`
abbrev pub strip_request_headers : List (List ℕ)
strip_request_headers =
    codes "host"
    ∷ codes "x-forwarded-for"
    ∷ codes "x-forwarded-host"
    ∷ codes "x-forwarded-proto"
    ∷ codes "x-real-ip"
    ∷ codes "forwarded"
    ∷ hop_by_hop_headers

-- `STRIP_RESPONSE_HEADERS`
abbrev pub strip_response_headers : List (List ℕ)
strip_response_headers =
    codes "vary"
    ∷ codes "access-control-allow-origin"
    ∷ codes "access-control-allow-credentials"
    ∷ codes "access-control-allow-methods"
    ∷ codes "access-control-allow-headers"
    ∷ codes "access-control-expose-headers"
    ∷ codes "access-control-max-age"
    ∷ hop_by_hop_headers

-- `request.headers.get(name)`, of a name in lower case
unfoldable pub get_header : List ℕ → List Header → Option (List ℕ)
get_header name [] = none
get_header name (h ∷ hs) =
    if codes_eq (map lower h.name) name then some h.value else get_header name hs

-- every value that a header has, of a name in lower case
unfoldable pub values_of : List ℕ → List Header → List (List ℕ)
values_of name [] = []
values_of name (h ∷ hs) =
    if codes_eq (map lower h.name) name then h.value ∷ values_of name hs else values_of name hs

-- `if k.lower() not in dropped`
unfoldable pub without : List (List ℕ) → List Header → List Header
without dropped hs = filter (λ h. not (names (map lower h.name) dropped)) hs

-- What the request says of its origin, and the host of the OSM service.
pub record Origin : Type 0 where
  pub client_host : List ℕ
  pub hostname : List ℕ
  pub scheme : List ℕ

abbrev pub header : List ℕ → List ℕ → Header
header name value = record { name = name; value = value }

abbrev pub origin_headers : List ℕ → Origin → List Header
origin_headers host o =
    header (codes "Host") host
    ∷ header (codes "X-Real-IP") o.client_host
    ∷ header (codes "X-Forwarded-For") o.client_host
    ∷ header (codes "X-Forwarded-Host") o.hostname
    ∷ header (codes "X-Forwarded-Proto") o.scheme
    ∷ []

abbrev pub replaced_headers : Bool → List (List ℕ)
replaced_headers force_deflate =
    codes "x-workspace"
    ∷ codes "authorization"
    ∷ (if force_deflate then codes "accept-encoding" ∷ [] else [])

abbrev pub workspace_header : Option ℤ → List Header
workspace_header none = []
workspace_header (some w) = header (codes "X-Workspace") (str_of_int w) ∷ []

abbrev pub deflate_header : Bool → List Header
deflate_header true = header (codes "Accept-Encoding") (codes "deflate") ∷ []
deflate_header false = []

-- `req_headers` of `catch_all`
unfoldable pub request_headers :
    List ℕ → Origin → Option ℤ → List ℕ → Bool → List Header → List Header
request_headers host o workspace_id token force_deflate hs =
    without (strip_request_headers ++ replaced_headers force_deflate) hs
    ++ (origin_headers host o
        ++ (workspace_header workspace_id
            ++ (header (codes "Authorization") (codes "Bearer " ++ token)
                ∷ deflate_header force_deflate)))

-- `req_headers` of `capabilities`
unfoldable pub anonymous_headers : List ℕ → Origin → List Header → List Header
anonymous_headers host o hs =
    without (strip_request_headers ++ codes "authorization" ∷ codes "x-workspace" ∷ []) hs
    ++ origin_headers host o

-- `forwarded_headers`
unfoldable pub forwarded_headers : List Header → List Header
forwarded_headers hs = without strip_response_headers hs
