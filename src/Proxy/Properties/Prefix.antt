-- ===== src/Proxy/Properties/Prefix.antt =====
-- The path prefix of `catch_all` of api/main.py against the X-Workspace header.
use workspaces_backend.Base.{ℕ, ℤ, ◌≡◌, refl, Bool, List, [], ◌∷◌, ◌++◌, Option, none, some}
use workspaces_backend.Security.UserInfo.{UserInfo}
use workspaces_backend.Workspaces.Schema.{TaskDb}
use workspaces_backend.Proxy.Text.{codes, str_of}
use workspaces_backend.Proxy.Paths.{workspace_prefix, after_literal, line}
use workspaces_backend.Proxy.Headers.{Header, header, get_header, request_headers, without, Origin}
use workspaces_backend.Proxy.Resolve.{resolve, of_header}
use workspaces_backend.Proxy.Forward.{Python, Request, forward, forward_path}
use workspaces_backend.Proxy.Properties.Numbers.{python_int-str_of, prefix_digits-str_of}

-- `/workspace/{id}` in front of a path
abbrev pub prefixed : ℕ → List ℕ → List ℕ
prefixed w path = codes "/workspace/" ++ str_of w path

abbrev pub workspace_header_of : ℕ → Header
workspace_header_of w = header (codes "X-Workspace") (str_of w [])

module _ (py : Python) where
  workspace_prefix-prefixed :
      (w : ℕ) (q : List ℕ)
      → line q ≡ some q
      → workspace_prefix py.others (prefixed w (47 ∷ q)) ≡ some (w, 47 ∷ q)
  unfolding workspace_prefix after_literal
  workspace_prefix-prefixed w q h = prefix_digits-str_of py.others w q h

  -- The prefix and the header resolve to the same workspace.
  resolve-prefix :
      (w : ℕ) (basic : Option ℕ)
      → resolve py.others (some w) none basic ≡ resolve py.others none (some (str_of w [])) basic
  unfolding resolve of_header
  resolve-prefix w basic = rw (python_int-str_of py.others w) refl

module _ (host : List ℕ) (o : Origin) (v : Option ℤ) (token : List ℕ) (f : Bool) where
  request_headers-extra :
      (w : ℕ) (hs : List Header)
      → request_headers host o v token f (workspace_header_of w ∷ hs)
        ≡ request_headers host o v token f hs
  unfolding request_headers without
  request_headers-extra w hs = refl

module _ (py : Python) (osm_host : Option (List ℕ)) (db : TaskDb) (user : UserInfo) (req : Request)
    (w : ℕ) where
  -- the request with the header instead of the prefix
  abbrev pub with_header : List ℕ → Request
  with_header path = record req { path = path; headers = workspace_header_of w ∷ req.headers }

  abbrev pub with_prefix : List ℕ → Request
  with_prefix path = record req { path = prefixed w path }

  forward_path-prefix :
      (path : List ℕ)
      → get_header (codes "x-workspace") req.headers ≡ none
      → forward_path py osm_host db user (with_prefix path) (some w) path
        ≡ forward_path py osm_host db user (with_header path) none path
  unfolding forward_path get_header request_headers without
  forward_path-prefix path silent = rw (silent, resolve-prefix py w req.basic_workspace_id) refl

  -- Prefix and header are interchangeable: with `/workspace/{id}` in front of its path, a request
  -- that sends no X-Workspace header is answered or forwarded exactly as the request without the
  -- prefix that sends the id in the header, for every id, path without a prefix of its own, caller,
  -- method and body.
  pub forward-prefix :
      (q : List ℕ)
      → line q ≡ some q
      → workspace_prefix py.others (47 ∷ q) ≡ none
      → get_header (codes "x-workspace") req.headers ≡ none
      → forward py osm_host db user (with_prefix (47 ∷ q))
        ≡ forward py osm_host db user (with_header (47 ∷ q))
  unfolding forward
  forward-prefix q one_line plain silent =
      rw (workspace_prefix-prefixed py w q one_line, plain) (forward_path-prefix (47 ∷ q) silent)
