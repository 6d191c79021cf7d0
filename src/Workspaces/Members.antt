-- ===== src/Workspaces/Members.antt =====
-- `UserRepository` of api/src/users/repository.py: the privileged members of a workspace.
use workspaces_backend.Base.{
  ℕ, Bool, ◌&&◌, not, ◌==◌, if◌then◌else◌, List, [], ◌∷◌, ◌++◌, filter, any, update_where,
  delete_where, Dict, insert,
}
use workspaces_backend.Core.{
  Result, ok, err, Action, ◌>>=◌, ◌>>◌, query, raise_if, execute, not_found_exception,
  http_exception, scalar_one_or_raise,
}
use workspaces_backend.Security.UserInfo.{UserInfo}
use workspaces_backend.Tasking.Schema.{Uuid, RoleType, lead, validator, contributor}
use workspaces_backend.Workspaces.Schema.{OsmUser, OsmDb, WorkspaceUserRole, WorkspaceUserRoleItem}
use workspaces_backend.Workspaces.World.{World, on_osm, commit_osm}
use workspaces_backend.Workspaces.Queries.{row_count, is_one}

abbrev pub is_in : ℕ → WorkspaceUserRole → Bool
is_in workspace_id r = r.workspace_id == workspace_id

abbrev pub is_role : ℕ → Uuid → WorkspaceUserRole → Bool
is_role workspace_id user_id r = r.workspace_id == workspace_id && r.user_auth_uid == user_id

abbrev pub has_auth_uid : Uuid → OsmUser → Bool
has_auth_uid uid u = u.auth_uid == uid

-- the users that the join pairs with a role
unfoldable pub items_of : RoleType → List OsmUser → List WorkspaceUserRoleItem
items_of role [] = []
items_of role (u ∷ us) =
    (record { id = u.id; auth_uid = u.auth_uid; display_name = u.display_name; role = role })
    ∷ items_of role us

unfoldable pub joined : List OsmUser → List WorkspaceUserRole → List WorkspaceUserRoleItem
joined users [] = []
joined users (r ∷ rs) =
    items_of r.role (filter (has_auth_uid r.user_auth_uid) users) ++ joined users rs

-- `get_privileged_workspace_members`
unfoldable pub get_privileged_workspace_members : ℕ → OsmDb → List WorkspaceUserRoleItem
get_privileged_workspace_members workspace_id db =
    joined db.users (filter (is_in workspace_id) db.user_workspace_roles)

-- `get_member_counts`, which has no entry for a workspace without rows
unfoldable pub counts_from : List WorkspaceUserRole → List ℕ → Dict ℕ
counts_from roles [] = []
counts_from roles (w ∷ ws) =
    let rest = counts_from roles ws in
    if any (is_in w) roles then insert w (row_count (is_in w) roles) rest else rest

unfoldable pub get_member_counts : List ℕ → OsmDb → Dict ℕ
get_member_counts workspace_ids db = counts_from db.user_workspace_roles workspace_ids

-- `get_current_user`: `scalar_one` raises `NoResultFound` for no row, which no handler catches.
unfoldable pub get_current_user : UserInfo → OsmDb → Result OsmUser
get_current_user user db =
    scalar_one_or_raise (http_exception 500 "NoResultFound")
      (filter (has_auth_uid user.user_uuid) db.users)

-- INSERT … ON CONFLICT (user_auth_uid, workspace_id) DO UPDATE SET role
unfoldable pub upsert_role_row :
    ℕ → Uuid → RoleType → List WorkspaceUserRole → List WorkspaceUserRole
upsert_role_row workspace_id user_id role rows =
    if any (is_role workspace_id user_id) rows
    then update_where (is_role workspace_id user_id) (λ r. record r { role = role }) rows
    else rows ++ (record { user_auth_uid = user_id; workspace_id = workspace_id; role = role }) ∷ []

-- `assign_member_role`
unfoldable pub assign_role : ℕ → Uuid → RoleType → Action World (Unit {0})
assign_role workspace_id user_id role = do
  known ← query (λ w. ok (any (has_auth_uid user_id) w.osm.users))
  raise_if (not known) (not_found_exception "User {user_id} has not signed in to Workspaces yet")
  execute (
      on_osm (λ db. record db {
        user_workspace_roles = upsert_role_row workspace_id user_id role db.user_workspace_roles;
      }))
  commit_osm

-- `remove_member_role`
unfoldable pub remove_role_row : ℕ → Uuid → Action World (Unit {0})
remove_role_row workspace_id user_id = do
  count ← query (λ w. ok (row_count (is_role workspace_id user_id) w.osm.user_workspace_roles))
  execute (
      on_osm (λ db. record db {
        user_workspace_roles = delete_where (is_role workspace_id user_id) db.user_workspace_roles;
      }))
  raise_if (not (is_one count))
      (not_found_exception "No role assigned for workspace {workspace_id}, user {user_id}")
  commit_osm

-- `remove_all_member_roles`
unfoldable pub remove_all_member_roles : ℕ → Action World (Unit {0})
remove_all_member_roles workspace_id = do
  execute (
      on_osm (λ db. record db {
        user_workspace_roles = delete_where (is_in workspace_id) db.user_workspace_roles;
      }))
  commit_osm

-- `privileged_roles_only` of `SetRoleRequest`
unfoldable pub privileged_roles_only : RoleType → Result RoleType
privileged_roles_only contributor =
    err (http_exception 422 "cannot assign implicit role 'contributor' directly")
privileged_roles_only lead = ok lead
privileged_roles_only validator = ok validator
