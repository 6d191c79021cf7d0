-- ===== src/Security/Tokens/State.antt =====
-- What `validate_token` of api/core/security.py reads and writes: the OSM database's tables for
-- OAuth, both databases' tables for permissions, and the process's cache and rejection log, which no
-- rollback restores. Tokens, token ids and scopes are numbers.
use workspaces_backend.Base.{ℕ, Bool, List, Option, Dict}
use workspaces_backend.Core.{Session, Action, Result, ok, err}
use workspaces_backend.Security.UserInfo.{UserInfo}
use workspaces_backend.Security.Rejections.{Entry}
use workspaces_backend.Tasking.Schema.{Uuid, Datetime}
use workspaces_backend.Workspaces.Schema.{Workspace, WorkspaceUserRole}
use Prim.Native.String.{String}

-- An address from the token, or the one that is made up where there is none.
pub data Email : Type 0 where
  given : ℕ → Email
  invalid_of : Uuid → Email

-- A row of `users`; `from_tdei` tells whether `auth_provider` is TDEI.
pub record OauthUser : Type 0 where
  pub id : ℕ
  pub auth_uid : Uuid
  pub email : Email
  pub display_name : String
  pub from_tdei : Bool

pub record OauthApplication : Type 0 where
  pub id : ℕ
  pub owner_id : ℕ
  pub uid : ℕ
  pub scopes : ℕ

pub record AccessToken : Type 0 where
  pub application_id : ℕ
  pub resource_owner_id : ℕ
  pub token : ℕ
  pub scopes : ℕ
  pub created_at : Datetime
  pub expires_in : Option ℕ
  pub revoked_at : Option Datetime

-- The OSM database.
pub record OauthDb : Type 0 where
  pub users : List OauthUser
  pub applications : List OauthApplication
  pub access_tokens : List AccessToken
  pub user_workspace_roles : List WorkspaceUserRole
  pub next_user_id : ℕ
  pub next_application_id : ℕ

pub record Auth : Type 0 where
  pub osm : OauthDb
  pub workspaces : List Workspace
  pub user_info_cache : Dict UserInfo
  pub rejection_log : Dict Entry

-- The settings that the bridge reads.
pub record BridgeSettings : Type 0 where
  pub enabled : Bool
  pub client_uid : ℕ
  pub scopes : ℕ
  pub system_user_auth_uid : Uuid
  pub system_user_email : Option ℕ
  pub system_user_display_name : String

-- A statement in the OSM session.
abbrev pub on_oauth : (OauthDb → OauthDb) → Auth → Auth
on_oauth f a = record a { osm = f a.osm }

-- `osm_session.commit()`
unfoldable pub commit_oauth : Action Auth (Unit {0})
commit_oauth s = (ok tt, record s { committed = record s.committed { osm = s.working.osm } })

-- A change of the process's own state.
unfoldable pub in_process : (Auth → Auth) → Action Auth (Unit {0})
in_process f s = (ok tt, record { committed = f s.committed; working = f s.working })

-- `except Exception as e: … await session.rollback()`
abbrev pub swallowed : Result (Unit {0}) × Session Auth → Result (Unit {0}) × Session Auth
swallowed (ok a, s) = (ok a, s)
swallowed (err e, s) = (ok tt, record s { working = record s.working { osm = s.committed.osm } })

unfoldable pub swallowing : Action Auth (Unit {0}) → Action Auth (Unit {0})
swallowing m s = swallowed (m s)
