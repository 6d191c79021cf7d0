-- ===== src/Workspaces/MemberRoutes.antt =====
-- api/src/users/routes.py and api/src/teams/routes.py: the endpoints for the members and the teams of
-- a workspace.
use Prim.Native.String.{String}
use workspaces_backend.Base.{ℕ, not, List}
use workspaces_backend.Core.{ok, Action, ◌>>=◌, ◌>>◌, pure, query, raise_if, http_exception}
use workspaces_backend.Security.UserInfo.{UserInfo, is_workspace_lead, is_workspace_contributor}
use workspaces_backend.Tasking.Schema.{Uuid, RoleType}
use workspaces_backend.Workspaces.Schema.{OsmUser, WorkspaceUserRoleItem, WorkspaceTeamItem}
use workspaces_backend.Workspaces.World.{World, evict_user_from_cache}
use workspaces_backend.Workspaces.Queries.{get_by_id}
use workspaces_backend.Workspaces.Members.{
  get_privileged_workspace_members, get_current_user, assign_role, remove_role_row,
  privileged_roles_only,
}
use workspaces_backend.Workspaces.Teams.{
  get_all_teams, get_item, assert_team_in_workspace, create_team, update_team, delete_team,
  get_members, add_member, remove_member,
}

unfoldable pub list_members : UserInfo → ℕ → Action World (List WorkspaceUserRoleItem)
list_members user workspace_id = do
  raise_if (not (is_workspace_contributor user workspace_id))
      (http_exception 403 "Project group membership required to view members")
  query (λ w. ok (get_privileged_workspace_members workspace_id w.osm))

-- `assign_member_role`; the body is validated before the handler runs.
unfoldable pub assign_member_role : UserInfo → ℕ → Uuid → RoleType → Action World (Unit {0})
assign_member_role user workspace_id user_id role = do
  query (λ _. privileged_roles_only role)
  raise_if (not (is_workspace_lead user workspace_id))
      (http_exception 403 "Must be a workspace owner to assign roles")
  query (λ w. get_by_id user workspace_id w.tasks)
  assign_role workspace_id user_id role
  evict_user_from_cache user_id

unfoldable pub remove_member_role : UserInfo → ℕ → Uuid → Action World (Unit {0})
remove_member_role user workspace_id user_id = do
  raise_if (not (is_workspace_lead user workspace_id))
      (http_exception 403 "Must be a workspace owner to remove roles")
  query (λ w. get_by_id user workspace_id w.tasks)
  remove_role_row workspace_id user_id
  evict_user_from_cache user_id

unfoldable pub get_all_teams_for_workspace : UserInfo → ℕ → Action World (List WorkspaceTeamItem)
get_all_teams_for_workspace user workspace_id = do
  query (λ w. get_by_id user workspace_id w.tasks)
  query (λ w. ok (get_all_teams workspace_id w.osm))

unfoldable pub create_team_for_workspace : UserInfo → ℕ → String → Action World ℕ
create_team_for_workspace user workspace_id name = do
  raise_if (not (is_workspace_lead user workspace_id))
      (http_exception 403 "Only workspace leads can create teams")
  query (λ w. get_by_id user workspace_id w.tasks)
  create_team workspace_id name

unfoldable pub get_team_for_workspace : UserInfo → ℕ → ℕ → Action World WorkspaceTeamItem
get_team_for_workspace user workspace_id team_id = do
  query (λ w. get_by_id user workspace_id w.tasks)
  assert_team_in_workspace team_id workspace_id
  get_item team_id

unfoldable pub update_team_for_workspace : UserInfo → ℕ → ℕ → String → Action World (Unit {0})
update_team_for_workspace user workspace_id team_id name = do
  raise_if (not (is_workspace_lead user workspace_id))
      (http_exception 403 "Only workspace leads can update teams")
  query (λ w. get_by_id user workspace_id w.tasks)
  assert_team_in_workspace team_id workspace_id
  update_team team_id name

unfoldable pub delete_team_from_workspace : UserInfo → ℕ → ℕ → Action World (Unit {0})
delete_team_from_workspace user workspace_id team_id = do
  raise_if (not (is_workspace_lead user workspace_id))
      (http_exception 403 "Only workspace leads can delete teams")
  query (λ w. get_by_id user workspace_id w.tasks)
  assert_team_in_workspace team_id workspace_id
  delete_team team_id

unfoldable pub get_members_in_workspace_team : UserInfo → ℕ → ℕ → Action World (List OsmUser)
get_members_in_workspace_team user workspace_id team_id = do
  query (λ w. get_by_id user workspace_id w.tasks)
  assert_team_in_workspace team_id workspace_id
  query (λ w. ok (get_members team_id w.osm))

unfoldable pub join_workspace_team : UserInfo → ℕ → ℕ → Action World OsmUser
join_workspace_team user workspace_id team_id = do
  query (λ w. get_by_id user workspace_id w.tasks)
  assert_team_in_workspace team_id workspace_id
  member ← query (λ w. get_current_user user w.osm)
  add_member team_id member.id
  pure member

unfoldable pub add_member_to_workspace_team : UserInfo → ℕ → ℕ → ℕ → Action World (Unit {0})
add_member_to_workspace_team user workspace_id team_id user_id = do
  raise_if (not (is_workspace_lead user workspace_id))
      (http_exception 403 "Only workspace leads can add team members")
  query (λ w. get_by_id user workspace_id w.tasks)
  assert_team_in_workspace team_id workspace_id
  add_member team_id user_id

unfoldable pub delete_member_from_workspace_team : UserInfo → ℕ → ℕ → ℕ → Action World (Unit {0})
delete_member_from_workspace_team user workspace_id team_id user_id = do
  raise_if (not (is_workspace_lead user workspace_id))
      (http_exception 403 "Only workspace leads can remove team members")
  query (λ w. get_by_id user workspace_id w.tasks)
  assert_team_in_workspace team_id workspace_id
  remove_member team_id user_id
