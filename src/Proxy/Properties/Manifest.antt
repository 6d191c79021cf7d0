-- ===== src/Proxy/Properties/Manifest.antt =====
-- `capabilities` of api/main.py: what the route without authentication sends.
use workspaces_backend.Base.{
  ℕ, ◌≡◌, refl, sym, ap, ◌∙◌, List, Option, subst, ◌⊎◌, inl, inr, Bool-cases, false,
}
use workspaces_backend.Core.{ok}
use workspaces_backend.Proxy.Text.{codes}
use workspaces_backend.Proxy.Paths.{workspace_prefix, begins}
use workspaces_backend.Proxy.Resolve.{get}
use workspaces_backend.Proxy.Headers.{anonymous_headers}
use workspaces_backend.Proxy.Forward.{Request, Upstream}
use workspaces_backend.Proxy.Capabilities.{forward_capabilities, manifest_path, behind_prefix}
use workspaces_backend.Proxy.Properties.Access.{bind-eq-ok}
use workspaces_backend.Proxy.Properties.Sets.{IsAnonymous, anonymous_headers-IsAnonymous}

-- The path that goes upstream: the client's own, or what stands behind a workspace prefix.
abbrev pub IsStripped : (ℕ → Option ℕ) → List ℕ → List ℕ → Type 0
IsStripped others path sent =
    ((begins (codes "/workspace/") path ≡ false) × (sent ≡ path))
    ⊎ ((w : ℕ) × (workspace_prefix others path ≡ Option.some (w, sent)))

manifest_path-IsStripped :
    (others : ℕ → Option ℕ) (path sent : List ℕ)
    → manifest_path others path ≡ ok sent
    → IsStripped others path sent
unfolding manifest_path
manifest_path-IsStripped others path sent h =
    elim (Bool-cases (begins (codes "/workspace/") path)) [
      | inr plain ↦ inl (plain, sym (cc (rw plain at h)))
      | inl within ↦ go (workspace_prefix others path) refl (rw within at h)
    ]
  where
    go :
        (o : Option (ℕ × List ℕ))
        → workspace_prefix others path ≡ o
        → behind_prefix o ≡ ok sent
        → IsStripped others path sent
    go Option.none e h = absurd (cc h)
    go (Option.some (w, rest)) e h =
        let same : rest ≡ sent = cc h in inr (w, e ∙ ap (λ (r : List ℕ). Option.some (w, r)) same)

-- The anonymous route leaks nothing: what it sends upstream is a GET without content, without
-- Authorization, X-Workspace and hop-by-hop headers whatever the client sent, for the client's path
-- without its workspace prefix.
pub forward_capabilities-IsAnonymous :
    (others : ℕ → Option ℕ) (osm_host : Option (List ℕ)) (req : Request) (up : Upstream)
    → forward_capabilities others osm_host req ≡ ok up
    → IsAnonymous up.headers
      × IsStripped others req.path up.path
      × (up.content ≡ Option.none)
      × (up.method ≡ get)
unfolding forward_capabilities
forward_capabilities-IsAnonymous others osm_host req up h =
    let (host, _, h1) = bind-eq-ok _ _ h in
    let (path, stripped, h2) = bind-eq-ok _ _ h1 in
    let same_headers : anonymous_headers host req.origin req.headers ≡ up.headers = cc h2 in
    let same_path : path ≡ up.path = cc h2 in
    (
      subst IsAnonymous same_headers (anonymous_headers-IsAnonymous host req.origin req.headers),
      subst (IsStripped others req.path) same_path
          (manifest_path-IsStripped others req.path path stripped),
      cc h2,
      cc h2,
    )
