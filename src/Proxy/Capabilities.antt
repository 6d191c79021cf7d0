-- ===== src/Proxy/Capabilities.antt =====
-- `capabilities` of api/main.py: the route without authentication.
use workspaces_backend.Base.{ℕ, false, if◌then◌else◌, List, [], Option, none, some}
use workspaces_backend.Core.{Result, ok, err, http_exception}
use workspaces_backend.Proxy.Text.{codes}
use workspaces_backend.Proxy.Paths.{workspace_prefix, begins}
use workspaces_backend.Proxy.Headers.{anonymous_headers, forwarded_headers}
use workspaces_backend.Proxy.Resolve.{get}
use workspaces_backend.Proxy.Forward.{
  ◌>>=◌, pure, or_raise, Request, Upstream, Sent, timed_out, not_connected, replied, Answer,
}

abbrev pub behind_prefix : Option (ℕ × List ℕ) → Result (List ℕ)
behind_prefix none =
    err (http_exception 422 "Workspace id in the path must be a non-negative integer")
behind_prefix (some (_, rest)) = ok rest

unfoldable pub manifest_path : (ℕ → Option ℕ) → List ℕ → Result (List ℕ)
manifest_path others path =
    if begins (codes "/workspace/") path
    then behind_prefix (workspace_prefix others path)
    else ok path

-- the request that `capabilities` sends
unfoldable pub forward_capabilities : (ℕ → Option ℕ) → Option (List ℕ) → Request → Result Upstream
forward_capabilities others osm_host req = do
  host ← or_raise (http_exception 503 "OSM proxy client is not initialized") osm_host
  path ← manifest_path others req.path
  pure (record {
    method = get;
    path = path;
    query = [];
    headers = anonymous_headers host req.origin req.headers;
    content = none;
  })

unfoldable pub answer_capabilities : Sent → Result Answer
answer_capabilities timed_out = err (http_exception 504 "Upstream OSM service timed out")
answer_capabilities not_connected =
    err (http_exception 502 "Could not connect to upstream OSM service")
answer_capabilities (replied status headers body) = ok (record {
  status_code = status;
  headers = forwarded_headers headers;
  body = body;
  reported = false;
  drops_copies = none;
})

unfoldable pub capabilities :
    (ℕ → Option ℕ) → Option (List ℕ) → (Upstream → Sent) → Request → Result Answer
capabilities others osm_host send req = do
  upstream ← forward_capabilities others osm_host req
  answer_capabilities (send upstream)
