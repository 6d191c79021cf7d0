-- ===== src/Workspaces/Teams.antt =====
-- `WorkspaceTeamRepository` of api/src/teams/repository.py. An ORM object whose collection is
-- changed and flushed is a statement on the link table.
use Prim.Native.String.{String}
use workspaces_backend.Base.{
  ℕ, ◌+◌, Bool, true, false, ◌&&◌, not, ◌==◌, List, [], ◌∷◌, ◌++◌, filter, any, update_where,
  delete_where, map,
}
use workspaces_backend.Core.{
  Result, ok, Action, ◌>>=◌, ◌>>◌, pure, query, raise_if, execute, not_found_exception,
  integrity_error, scalar_one_or_raise,
}
use workspaces_backend.Workspaces.Schema.{
  OsmUser, OsmDb, WorkspaceTeam, WorkspaceTeamUser, WorkspaceTeamItem,
}
use workspaces_backend.Workspaces.World.{World, on_osm, commit_osm}
use workspaces_backend.Workspaces.Queries.{row_count}

abbrev pub is_team : ℕ → WorkspaceTeam → Bool
is_team id t = t.id == id

abbrev pub is_team_in : ℕ → ℕ → WorkspaceTeam → Bool
is_team_in id workspace_id t = t.id == id && t.workspace_id == workspace_id

abbrev pub links_team : ℕ → WorkspaceTeamUser → Bool
links_team id l = l.team_id == id

abbrev pub is_link : ℕ → ℕ → WorkspaceTeamUser → Bool
is_link id user_id l = l.team_id == id && l.user_id == user_id

abbrev pub has_user_id : ℕ → OsmUser → Bool
has_user_id user_id u = u.id == user_id

-- `WorkspaceTeamItem.from_team`
abbrev pub from_team : List WorkspaceTeamUser → WorkspaceTeam → WorkspaceTeamItem
from_team links t = record {
  id = t.id;
  name = t.name;
  member_count = row_count (links_team t.id) links;
}

unfoldable pub get_all_teams : ℕ → OsmDb → List WorkspaceTeamItem
get_all_teams workspace_id db =
    map (from_team db.team_users) (filter (λ t. t.workspace_id == workspace_id) db.teams)

unfoldable pub get_team : ℕ → OsmDb → Result WorkspaceTeam
get_team id db =
    scalar_one_or_raise (not_found_exception "Team {id} not found") (filter (is_team id) db.teams)

-- `get_item`
unfoldable pub get_item : ℕ → Action World WorkspaceTeamItem
get_item id = do
  team ← query (λ w. get_team id w.osm)
  query (λ w. ok (from_team w.osm.team_users team))

unfoldable pub assert_team_in_workspace : ℕ → ℕ → Action World (Unit {0})
assert_team_in_workspace id workspace_id = do
  team_exists ← query (λ w. ok (any (is_team_in id workspace_id) w.osm.teams))
  raise_if (not team_exists) (not_found_exception "Team {id} not in workspace {workspace_id}")

unfoldable pub create_team : ℕ → String → Action World ℕ
create_team workspace_id name = do
  id ← query (λ w. ok w.osm.next_team_id)
  execute (
      on_osm (λ db. record db {
        teams = db.teams ++ (record { id = id; name = name; workspace_id = workspace_id }) ∷ [];
        next_team_id = db.next_team_id + 1;
      }))
  commit_osm
  pure id

unfoldable pub update_team : ℕ → String → Action World (Unit {0})
update_team id name = do
  query (λ w. get_team id w.osm)
  execute (
      on_osm (λ db. record db {
        teams = update_where (is_team id) (λ t. record t { name = name }) db.teams;
      }))
  commit_osm

-- A bulk DELETE under the foreign key of `team_user`, which does not cascade.
unfoldable pub delete_team : ℕ → Action World (Unit {0})
delete_team id = do
  exists ← query (λ w. ok (any (is_team id) w.osm.teams))
  has_members ← query (λ w. ok (any (links_team id) w.osm.team_users))
  raise_if (exists && has_members) (integrity_error "team_user_team_id_fkey")
  execute (on_osm (λ db. record db { teams = delete_where (is_team id) db.teams }))
  commit_osm

-- `User.teams.any(id=id)`
unfoldable pub get_members : ℕ → OsmDb → List OsmUser
get_members id db = filter (λ u. any (is_link id u.id) db.team_users) db.users

unfoldable pub user_or_raise : ℕ → OsmDb → Result OsmUser
user_or_raise user_id db =
    scalar_one_or_raise (not_found_exception "User {user_id} does not exist")
      (filter (has_user_id user_id) db.users)

-- `if team in user.teams: return`, then the new link
unfoldable pub add_link_unless : Bool → ℕ → ℕ → Action World (Unit {0})
add_link_unless true id user_id = pure tt
add_link_unless false id user_id = do
  execute (
      on_osm (λ db. record db {
        team_users = db.team_users ++ (record { team_id = id; user_id = user_id }) ∷ [];
      }))
  commit_osm

unfoldable pub add_member : ℕ → ℕ → Action World (Unit {0})
add_member id user_id = do
  query (λ w. user_or_raise user_id w.osm)
  query (λ w. get_team id w.osm)
  linked ← query (λ w. ok (any (is_link id user_id) w.osm.team_users))
  add_link_unless linked id user_id

-- `if team not in user.teams: return`, then the DELETE
unfoldable pub remove_link_if : Bool → ℕ → ℕ → Action World (Unit {0})
remove_link_if false id user_id = pure tt
remove_link_if true id user_id = do
  execute
      (on_osm (λ db. record db { team_users = delete_where (is_link id user_id) db.team_users }))
  commit_osm

unfoldable pub remove_member : ℕ → ℕ → Action World (Unit {0})
remove_member id user_id = do
  query (λ w. user_or_raise user_id w.osm)
  query (λ w. get_team id w.osm)
  linked ← query (λ w. ok (any (is_link id user_id) w.osm.team_users))
  remove_link_if linked id user_id
