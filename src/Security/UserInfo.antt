-- ===== src/Security/UserInfo.antt =====
-- class UserInfo of api/core/security.py: the roles of an authenticated caller. Project-group
-- ids, workspace ids and UUIDs are only compared, so they are numbers.
use Prim.Native.String.{String}
use workspaces_backend.Base.{
  ℕ, Bool, true, false, ◌&&◌, ◌||◌, List, [], ◌∷◌, any, ◌==◌, if◌then◌else◌, map, Dict, lookup,
  get_or,
}
use workspaces_backend.Tasking.Schema.{Uuid, RoleType, lead, validator, contributor, is_lead}

pub data TdeiProjectGroupRole : Type 0 where
  member point_of_contact flex_generator osw_generator pathways_generator : TdeiProjectGroupRole

abbrev pub is_point_of_contact : TdeiProjectGroupRole → Bool
is_point_of_contact point_of_contact = true
is_point_of_contact _ = false

abbrev pub is_validator : RoleType → Bool
is_validator validator = true
is_validator _ = false

pub record UserInfoPgMembership : Type 0 where
  pub project_group_name : String
  pub project_group_id : ℕ
  pub tdei_roles : List TdeiProjectGroupRole

pub record UserInfo : Type 0 where
  pub credentials : ℕ
  pub user_uuid : Uuid
  pub user_name : String
  pub token_jti : ℕ
  pub osm_workspace_roles : Dict (List RoleType)
  pub accessible_workspace_ids : Dict (List ℕ)
  pub project_groups : List UserInfoPgMembership

-- `workspaceId in …`
abbrev pub contains : ℕ → List ℕ → Bool
contains w = any (λ v. v == w)

-- `getProjectGroupIds(withRole="any")`
unfoldable pub get_project_group_ids : UserInfo → List ℕ
get_project_group_ids user = map (λ pg. pg.project_group_id) user.project_groups

-- the loop of `isWorkspaceLead`
unfoldable pub leads_a_group : ℕ → Dict (List ℕ) → List UserInfoPgMembership → Bool
leads_a_group w accessible [] = false
leads_a_group w accessible (pg ∷ pgs) =
    (any is_point_of_contact pg.tdei_roles
      && contains w (get_or (lookup pg.project_group_id accessible)))
    || leads_a_group w accessible pgs

unfoldable pub is_workspace_lead : UserInfo → ℕ → Bool
is_workspace_lead user w =
    any is_lead (get_or (lookup w user.osm_workspace_roles))
    || leads_a_group w user.accessible_workspace_ids user.project_groups

unfoldable pub is_workspace_validator : UserInfo → ℕ → Bool
is_workspace_validator user w = any is_validator (get_or (lookup w user.osm_workspace_roles))

unfoldable pub is_workspace_contributor : UserInfo → ℕ → Bool
is_workspace_contributor user w = any (λ (_, ids). contains w ids) user.accessible_workspace_ids

unfoldable pub effective_role : UserInfo → ℕ → RoleType
effective_role user w =
    if is_workspace_lead user w
    then lead
    else if is_workspace_validator user w
    then validator
    else contributor
