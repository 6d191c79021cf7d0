-- ===== src/Proxy/Properties/Access.antt =====
-- Which requests `catch_all` of api/main.py forwards.
use workspaces_backend.Base.{
  ℕ, ℤ, pos, negsuc, ◌≡◌, ◌⊎◌, refl, ap, ◌∙◌, true, List, [], ◌∷◌, Option, none, some, Bool-cases,
  Option-cases, inl, inr,
}
use workspaces_backend.Core.{Result, ok, err}
use workspaces_backend.Security.UserInfo.{UserInfo, is_workspace_contributor}
use workspaces_backend.Workspaces.Schema.{TaskDb}
use workspaces_backend.Proxy.Text.{codes, str_of}
use workspaces_backend.Proxy.Paths.{workspace_prefix}
use workspaces_backend.Proxy.Encoding.{accepts_deflate}
use workspaces_backend.Proxy.Headers.{values_of, get_header, request_headers}
use workspaces_backend.Proxy.Resolve.{
  Rule, tenantless_endpoints, first_match, authorizes, resolve, admit,
}
use workspaces_backend.Proxy.Forward.{
  ◌>>=◌, Python, Request, Upstream, prefix_id, path_behind, forward, forward_path,
}
use workspaces_backend.Proxy.Properties.Sets.{request_headers-IsExact, workspace_values}
use workspaces_backend.Proxy.Properties.Sources.{Says, HeaderSays, resolve-Sources, resolve-Silent}

pub bind-eq-ok :
    {A B : Type 0} (m : Result A) (k : A → Result B) {b : B}
    → (m >>= k) ≡ ok b
    → (a : A) × (m ≡ ok a) × (k a ≡ ok b)
unfolding ◌>>=◌
bind-eq-ok (ok a) k h = (a, refl, h)
bind-eq-ok (err e) k h = absurd (cc h)

-- What a forwarded request has passed: the workspace that its sources agree on, and the check on it.
pub record IsForwarded (py : Python) (user : UserInfo) (req : Request) (prefix : Option ℕ)
    (path : List ℕ) (up : Upstream) : Type 0 where
  pub workspace_id : Option ℤ
  pub host : List ℕ
  pub resolved :
      resolve py.others prefix (get_header (codes "x-workspace") req.headers) req.basic_workspace_id
      ≡ ok workspace_id
  pub admitted : admit py.others py.uuid_text user req.method path workspace_id ≡ ok tt
  pub headers :
      up.headers
      ≡ request_headers host req.origin workspace_id
          (py.token_text user.credentials)
          (accepts_deflate py.float (get_header (codes "accept-encoding") req.headers))
          req.headers

module _ (py : Python) (osm_host : Option (List ℕ)) (db : TaskDb) (user : UserInfo)
    (req : Request) where
  forward_path-IsForwarded :
      (prefix : Option ℕ) (path : List ℕ) (up : Upstream)
      → forward_path py osm_host db user req prefix path ≡ ok up
      → IsForwarded py user req prefix path up
  unfolding forward_path
  forward_path-IsForwarded prefix path up h =
      let (_, _, h1) = bind-eq-ok _ _ h in
      let (w, resolved, h2) = bind-eq-ok _ _ h1 in
      let (_, admitted, h3) = bind-eq-ok _ _ h2 in
      let (host, _, h4) = bind-eq-ok _ _ h3 in
      let (content, _, h5) = bind-eq-ok _ _ h4 in
      record {
        workspace_id = w;
        host = host;
        resolved = resolved;
        admitted = admitted;
        headers = cc h5;
      }

  -- The header of the request in question.
  abbrev pub sent_workspace : Option (List ℕ)
  sent_workspace = get_header (codes "x-workspace") req.headers

  abbrev pub ForWorkspace : Option ℕ → Upstream → Type 0
  ForWorkspace prefix up =
      (w : ℕ) × (is_workspace_contributor user w ≡ true)
      × (values_of (codes "x-workspace") up.headers ≡ str_of w [] ∷ [])
      × Says w prefix
      × HeaderSays py.others w sent_workspace
      × Says w req.basic_workspace_id

  abbrev pub Tenantless : Option ℕ → List ℕ → Upstream → Type 0
  Tenantless prefix path up =
      (rule : Rule) × (first_match py.others tenantless_endpoints req.method path ≡ some rule)
      × (authorizes py.uuid_text user rule ≡ true)
      × (values_of (codes "x-workspace") up.headers ≡ [])
      × (prefix ≡ none)
      × (sent_workspace ≡ none)
      × (req.basic_workspace_id ≡ none)

  says : (w : ℕ) (o : Option ℕ) → (o ≡ none) ⊎ ((p : ℕ) × (o ≡ some p) × (pos p ≡ pos w)) → Says w o
  says w o (inl silent) = inl silent
  says w o (inr (p, named, same)) = let equal : p ≡ w = cc same in inr (named ∙ ap some equal)

  IsForwarded-split :
      (prefix : Option ℕ) (path : List ℕ) (up : Upstream)
      → IsForwarded py user req prefix path up
      → ForWorkspace prefix up ⊎ Tenantless prefix path up
  unfolding admit
  IsForwarded-split prefix path up f = go f.workspace_id refl f.resolved f.admitted
    where
      header_values :
          (v : Option ℤ)
          → f.workspace_id ≡ v
          → values_of (codes "x-workspace") up.headers ≡ workspace_values v
      header_values v e =
          ap (values_of (codes "x-workspace")) f.headers
          ∙ (request_headers-IsExact f.host req.origin (py.token_text user.credentials)
              f.workspace_id
              (accepts_deflate py.float (get_header (codes "accept-encoding") req.headers))
              req.headers).workspace
          ∙ ap workspace_values e

      go :
          (v : Option ℤ)
          → f.workspace_id ≡ v
          → resolve py.others prefix sent_workspace req.basic_workspace_id ≡ ok v
          → admit py.others py.uuid_text user req.method path v ≡ ok tt
          → ForWorkspace prefix up ⊎ Tenantless prefix path up
      go (some (negsuc w)) e r a = absurd (cc a)
      go (some (pos w)) e r a = elim (Bool-cases (is_workspace_contributor user w)) [
        | inr no_access ↦ absurd (cc (rw no_access at a))
        | inl access ↦
            let sources =
              resolve-Sources py.others prefix sent_workspace req.basic_workspace_id (pos w) r in
            inl (
              w,
              access,
              header_values (some (pos w)) e,
              says w prefix sources.0.0,
              sources.0.1,
              says w req.basic_workspace_id sources.1,
            )
      ]
      go none e r a =
          elim (Option-cases (first_match py.others tenantless_endpoints req.method path)) [
            | inl unmatched ↦ absurd (cc (rw unmatched at a))
            | inr (rule, matched) ↦ elim (Bool-cases (authorizes py.uuid_text user rule)) [
              | inr denied ↦ absurd (cc (rw denied at (rw matched at a)))
              | inl allowed ↦
                  let silent =
                    resolve-Silent py.others prefix sent_workspace req.basic_workspace_id r in
                  inr
                    (rule, matched, allowed, header_values none e, silent.0.0, silent.0.1, silent.1)
            ]
          ]

  -- Nothing is forwarded without authority: a request that is sent on either carries exactly one
  -- X-Workspace header, with the id of a workspace that the caller may access and that the path
  -- prefix, the client's header and the Basic username each name or leave open; or no source names
  -- a workspace, no X-Workspace header is sent, and the path is a tenantless endpoint whose own rule
  -- lets the caller through.
  pub forward-IsAuthorized :
      (up : Upstream)
      → forward py osm_host db user req ≡ ok up
      → ForWorkspace (prefix_id (workspace_prefix py.others req.path)) up
        ⊎ Tenantless
            (prefix_id (workspace_prefix py.others req.path))
            (path_behind req.path (workspace_prefix py.others req.path))
            up
  unfolding forward
  forward-IsAuthorized up h =
      let found = workspace_prefix py.others req.path in
      IsForwarded-split (prefix_id found) (path_behind req.path found) up
        (forward_path-IsForwarded (prefix_id found) (path_behind req.path found) up h)
