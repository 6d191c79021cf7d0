-- ===== src/Proxy/Resolve.antt =====
-- Which workspace a proxied request is for, and whether the caller may have it: the first half of
-- `catch_all` of api/main.py, with `TENANTLESS_ENDPOINTS`.
use Prim.Native.String.{String}
use workspaces_backend.Base.{
  ℕ, ℤ, pos, negsuc, ◌==ℤ◌, Bool, true, false, not, if◌then◌else◌, List, [], ◌∷◌, Option, none,
  some, codes_eq,
}
use workspaces_backend.Core.{Result, ok, err, http_exception}
use workspaces_backend.Security.UserInfo.{UserInfo, is_workspace_lead, is_workspace_contributor}
use workspaces_backend.Proxy.Text.{python_int}
use workspaces_backend.Proxy.Paths.{workspace_schema, user_path}

pub data Method : Type 0 where
  get post put delete options head patch : Method

abbrev pub is_put : Method → Bool
is_put put = true
is_put _ = false

abbrev pub is_get : Method → Bool
is_get get = true
is_get _ = false

-- The path prefix, if there is one, says something else.
abbrev pub disagrees : Option ℕ → ℤ → Bool
disagrees none w = false
disagrees (some p) w = not (pos p ==ℤ w)

abbrev pub of_prefix : Option ℕ → Option ℤ
of_prefix none = none
of_prefix (some p) = some (pos p)

-- What a tenantless endpoint makes of a path: whose authority it asks for.
pub data Rule : Type 0 where
  manages_schema : ℕ → Rule
  provisions : List ℕ → Rule

pub data TenantlessEndpoint : Type 0 where
  schema_endpoint provision_endpoint : TenantlessEndpoint

abbrev pub tenantless_endpoints : List TenantlessEndpoint
tenantless_endpoints = schema_endpoint ∷ provision_endpoint ∷ []

-- `request.method in endpoint.methods`
abbrev pub accepts : TenantlessEndpoint → Method → Bool
accepts schema_endpoint put = true
accepts schema_endpoint delete = true
accepts schema_endpoint _ = false
accepts provision_endpoint put = true
accepts provision_endpoint _ = false

module _ (others : ℕ → Option ℕ) where
  abbrev pub of_number : Option ℕ → Option ℤ → Result (Option ℤ)
  of_number prefix none = err (http_exception 400 "X-Workspace header must be a valid integer")
  of_number prefix (some w) =
      if disagrees prefix w
      then err (
          http_exception 400
            "Workspace mismatch: path prefix says {prefix_workspace_id}, X-Workspace header says {workspace_id}")
      else ok (some w)

  unfoldable pub of_header : Option ℕ → Option (List ℕ) → Result (Option ℤ)
  of_header prefix none = ok (of_prefix prefix)
  of_header prefix (some text) = of_number prefix (python_int others text)

  abbrev pub of_basic_id : Option ℕ → Result (Option ℤ) → Result (Option ℤ)
  of_basic_id basic (err e) = err e
  of_basic_id none (ok w) = ok w
  of_basic_id (some b) (ok none) = ok (some (pos b))
  of_basic_id (some b) (ok (some w)) =
      if w ==ℤ pos b
      then ok (some (pos b))
      else err (
          http_exception 400
            "Workspace mismatch: the request path or X-Workspace header says {workspace_id}, the HTTP Basic username says {basic_workspace_id}")

  -- The workspace that the path prefix, the header and the Basic username agree on.
  unfoldable pub resolve : Option ℕ → Option (List ℕ) → Option ℕ → Result (Option ℤ)
  resolve prefix header basic = of_basic_id basic (of_header prefix header)

  abbrev pub manages : Option ℕ → Option Rule
  manages none = none
  manages (some id) = some (manages_schema id)

  abbrev pub provisions_user : Option (List ℕ) → Option Rule
  provisions_user none = none
  provisions_user (some uid) = some (provisions uid)

  -- `endpoint.pattern.fullmatch(proxied_path)`
  abbrev pub full_match : TenantlessEndpoint → List ℕ → Option Rule
  full_match schema_endpoint path = manages (workspace_schema others path)
  full_match provision_endpoint path = provisions_user (user_path path)

  -- the loop over the endpoints
  unfoldable pub first_match : List TenantlessEndpoint → Method → List ℕ → Option Rule
  first_match [] method path = none
  first_match (endpoint ∷ endpoints) method path =
      let later = first_match endpoints method path in
      if accepts endpoint method
      then (elim (full_match endpoint path) [ some rule ↦ some rule | none ↦ later ])
      else later

module _ (uuid_text : ℕ → List ℕ) where
  -- `_may_manage_workspace_schema` and `_is_provisioning_self`
  unfoldable pub authorizes : UserInfo → Rule → Bool
  authorizes user (manages_schema id) = is_workspace_lead user id
  authorizes user (provisions uid) = codes_eq uid (uuid_text user.user_uuid)

  abbrev pub denial : Rule → String
  denial (manages_schema id) = "You must be a workspace lead to create or delete this workspace"
  denial (provisions uid) = "You may only provision your own user"

  abbrev pub by_rule : UserInfo → Option Rule → Result (Unit {0})
  by_rule user none = err (http_exception 400 "No X-Workspace header supplied")
  by_rule user (some rule) =
      if authorizes user rule then ok tt else err (http_exception 403 (denial rule))

-- `isWorkspaceContributor`; the ids of workspaces are not negative
abbrev pub reaches : UserInfo → ℤ → Bool
reaches user (pos w) = is_workspace_contributor user w
reaches user (negsuc w) = false

module _ (others : ℕ → Option ℕ) (uuid_text : ℕ → List ℕ) where
  unfoldable pub admit : UserInfo → Method → List ℕ → Option ℤ → Result (Unit {0})
  admit user method path none =
      by_rule uuid_text user (first_match others tenantless_endpoints method path)
  admit user method path (some w) =
      if reaches user w
      then ok tt
      else err (http_exception 403 "You do not have access to this workspace")
