-- ===== src/Security/Tokens/Permissions.antt =====
-- `_validate_token_uncached` of api/core/security.py: the permissions behind a token.
use Prim.Native.String.{String}
use workspaces_backend.Base.{ℕ, Bool, ◌==◌, List, [], ◌∷◌, Option, filter, map, Dict, append_at}
use workspaces_backend.Core.{
  Result, ok, err, Error, http_exception, Action, ◌>>=◌, ◌>>◌, pure, query,
}
use workspaces_backend.Security.UserInfo.{UserInfo, UserInfoPgMembership, contains}
use workspaces_backend.Security.Rejections.{log_rejected_token}
use workspaces_backend.Tasking.Schema.{Uuid, Datetime, RoleType}
use workspaces_backend.Workspaces.Schema.{Workspace, WorkspaceUserRole}
use workspaces_backend.Security.Tokens.State.{Auth, BridgeSettings, in_process}
use workspaces_backend.Security.Tokens.Bridge.{bridge_token_to_osm}

-- The claims that are read; an absent `jti` is the empty text, which is one of the numbers.
pub data Subject : Type 0 where
  absent malformed : Subject
  uuid : Uuid → Subject

pub record Payload : Type 0 where
  pub sub : Subject
  pub jti : ℕ
  pub preferred_username : String
  pub email : Option ℕ
  pub exp : Option ℕ

-- What TDEI answers for the caller's project groups.
pub data GroupsReply : Type 0 where
  no_client unreachable not_json : GroupsReply
  refused : ℕ → GroupsReply
  groups : List UserInfoPgMembership → GroupsReply

abbrev pub credentials_exception : Error
credentials_exception = http_exception 401 "Invalid authentication credentials"

abbrev pub logged : ℕ → ℕ → Auth → Auth
logged now key a = record a { rejection_log = (log_rejected_token now key a.rejection_log).0 }

-- the answer, once it is no refusal
abbrev pub groups_or_raise : GroupsReply → Result (List UserInfoPgMembership)
groups_or_raise no_client = err (http_exception 503 "TDEI client is not initialized")
groups_or_raise unreachable = err (http_exception 502 "Could not reach TDEI backend")
groups_or_raise (refused status) = err credentials_exception
groups_or_raise not_json = err credentials_exception
groups_or_raise (groups gs) = ok gs

abbrev pub log_refusal : ℕ → ℕ → GroupsReply → Auth → Auth
log_refusal now key (refused status) a = logged now key a
log_refusal now key no_client a = a
log_refusal now key unreachable a = a
log_refusal now key not_json a = a
log_refusal now key (groups gs) a = a

-- `pgid not in r.accessibleWorkspaceIds: … = []`, `….append(wsid)`
unfoldable pub grouped : List Workspace → Dict (List ℕ) → Dict (List ℕ)
grouped [] d = d
grouped (w ∷ ws) d = grouped ws (append_at w.tdei_project_group_id w.id d)

unfoldable pub roles_by_workspace :
    List WorkspaceUserRole → Dict (List RoleType) → Dict (List RoleType)
roles_by_workspace [] d = d
roles_by_workspace (r ∷ rs) d = roles_by_workspace rs (append_at r.workspace_id r.role d)

abbrev pub group_ids : List UserInfoPgMembership → List ℕ
group_ids = map (λ pg. pg.project_group_id)

abbrev pub is_in_groups : List UserInfoPgMembership → Workspace → Bool
is_in_groups gs w = contains w.tdei_project_group_id (group_ids gs)

abbrev pub is_role_of_user : Uuid → WorkspaceUserRole → Bool
is_role_of_user user_uuid r = r.user_auth_uid == user_uuid

-- the record that is built
unfoldable pub user_info : Uuid → ℕ → Payload → List UserInfoPgMembership → Auth → UserInfo
user_info user_uuid token p gs a = record {
  credentials = token;
  user_uuid = user_uuid;
  user_name = p.preferred_username;
  token_jti = p.jti;
  osm_workspace_roles =
      roles_by_workspace (filter (is_role_of_user user_uuid) a.osm.user_workspace_roles) [];
  accessible_workspace_ids = grouped (filter (is_in_groups gs) a.workspaces) [];
  project_groups = gs;
}

-- `_validate_token_uncached`; `monotonic` is the clock of the rejection log, `now` the time of day,
-- and `key` the digest of the token.
unfoldable pub validate_token_uncached :
    BridgeSettings → ℕ → Datetime → ℕ → GroupsReply → Uuid → ℕ → Payload → Action Auth UserInfo
validate_token_uncached cfg monotonic now key reply user_uuid token p = do
  in_process (log_refusal monotonic key reply)
  gs ← query (λ _. groups_or_raise reply)
  user ← query (λ a. ok (user_info user_uuid token p gs a))
  bridge_token_to_osm cfg now (record {
    user_uuid = user_uuid;
    user_name = p.preferred_username;
    email = p.email;
    token = token;
    exp = p.exp;
  })
  pure user
