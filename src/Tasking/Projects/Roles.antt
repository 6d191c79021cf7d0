-- ===== src/Tasking/Projects/Roles.antt =====
-- The role endpoints: `assert_can_manage_roles`, `add_role`, `update_role`, `upsert_role`,
-- `remove_role`, `get_role`, `list_roles` and `list_self_project_roles` of
-- api/src/tasking/projects/repository.py.

use workspaces_backend.Base.{
  ℕ, Bool, true, false, not, ◌&&◌, ◌||◌, List, [], ◌∷◌, ◌++◌, Option, none, some, is_some, any,
  filter, map, update_where, delete_where, length, ◌==◌, leb, if◌then◌else◌,
}
use workspaces_backend.Core.{
  Result, ok, err, http_exception, not_found_exception, already_exists_exception,
  forbidden_exception, integrity_error, Action, ◌>>=◌, ◌>>◌, pure, raise_if, query, execute, commit,
  rolling_back,
}
use workspaces_backend.Security.UserInfo.{UserInfo, is_workspace_lead, effective_role}
use workspaces_backend.Tasking.Schema.{
  Db, TaskingProject, TaskingProjectRole, ProjectStatus, RoleType, is_lead, Uuid, Datetime,
}
use workspaces_backend.Tasking.Tasks.Queries.{get_project, is_role_of}
use workspaces_backend.Tasking.Projects.Queries.{translate_integrity_error}
use workspaces_backend.Tasking.Projects.Provision.{
  Members, is_user, missing_user_auth_uids, provision_users_from_tdei,
}

abbrev pub is_lead_of : ℕ → TaskingProjectRole → Bool
is_lead_of project_id r = r.project_id == project_id && is_lead r.role

abbrev pub is_empty : List Uuid → Bool
is_empty [] = true
is_empty _ = false

-- `_lead_count`
unfoldable pub lead_count : ℕ → Db → ℕ
lead_count project_id db = length (filter (is_lead_of project_id) db.project_roles)

-- `row.first()` of `_get_role_or_none`
abbrev pub first : {A : Type 0} → List A → Option A
first [] = none
first (x ∷ _) = some x

unfoldable pub get_role_or_none : ℕ → Uuid → Db → Option TaskingProjectRole
get_role_or_none project_id user db = first (filter (is_role_of project_id user) db.project_roles)

abbrev pub role_or_raise : Option TaskingProjectRole → Result TaskingProjectRole
role_or_raise none = err (not_found_exception "User {user_id} has no role on project {project_id}")
role_or_raise (some r) = ok r

unfoldable pub get_role_row : ℕ → Uuid → Db → Result TaskingProjectRole
get_role_row project_id user db = role_or_raise (get_role_or_none project_id user db)

unfoldable pub assert_can_manage_roles : ℕ → ℕ → UserInfo → Action Db (Unit {0})
assert_can_manage_roles workspace_id project_id user = do
  query (get_project workspace_id project_id)
  project_lead ← query (λ db.
      ok (any (λ r. is_role_of project_id user.user_uuid r && is_lead r.role) db.project_roles))
  raise_if (not (is_workspace_lead user workspace_id || project_lead)) (
      forbidden_exception "Only a workspace lead or project lead can manage roles on this project.")

-- The primary key and the foreign key of `tasking_project_roles`.
unfoldable pub insert_role : TaskingProjectRole → Action Db (Unit {0})
insert_role r s =
    if not (any (is_user r.user_auth_uid) s.working.users)
    then (err (integrity_error "tasking_project_roles_user_auth_uid_fkey"), s)
    else if any (is_role_of r.project_id r.user_auth_uid) s.working.project_roles
    then (err (integrity_error "tasking_project_roles_pkey"), s)
    else (
      ok tt,
      record s { working = record s.working { project_roles = s.working.project_roles ++ r ∷ [] } },
    )

-- `UPDATE tasking_project_roles SET role = …, updated_at = NOW() WHERE …`
unfoldable pub set_role : ℕ → Uuid → RoleType → Datetime → Db → Db
set_role project_id user role now db = record db {
  project_roles =
      update_where (is_role_of project_id user) (λ r. record r { role = role; updated_at = now })
        db.project_roles;
}

-- `INSERT … ON CONFLICT (project_id, user_auth_uid) DO UPDATE`
unfoldable pub upsert_role_row : TaskingProjectRole → Action Db (Unit {0})
upsert_role_row r s =
    if any (is_role_of r.project_id r.user_auth_uid) s.working.project_roles
    then (
      ok tt,
      record s { working = set_role r.project_id r.user_auth_uid r.role r.updated_at s.working },
    )
    else insert_role r s

-- `if missing: …`
unfoldable pub provision_missing : Members → List Uuid → Action Db (List Uuid)
provision_missing members [] = pure []
provision_missing members (u ∷ us) = provision_users_from_tdei members (u ∷ us)

unfoldable pub add_role :
    Members → Datetime → ℕ → ℕ → Uuid → RoleType → Action Db TaskingProjectRole
add_role members now workspace_id project_id user_id role = do
  query (get_project workspace_id project_id)
  missing ← query (λ db. ok (missing_user_auth_uids (user_id ∷ []) db))
  still_missing ← provision_missing members missing
  raise_if (not (is_empty still_missing)) (
      http_exception 422 "The `user_id` is not a member of this workspace's project group in TDEI.")
  existing ← query (λ db. ok (any (is_role_of project_id user_id) db.project_roles))
  raise_if existing
      (already_exists_exception "This user is already assigned a role on the project.")
  rolling_back translate_integrity_error do
    insert_role
        (record { project_id = project_id; user_auth_uid = user_id; role = role; updated_at = now })
    commit
  query (get_role_row project_id user_id)

-- Guard of `update_role` and of the update path of `upsert_role`.
abbrev pub demotes_last_lead : RoleType → RoleType → ℕ → Bool
demotes_last_lead old new leads = is_lead old && not (is_lead new) && leb leads 1

unfoldable pub update_role : Datetime → ℕ → ℕ → Uuid → RoleType → Action Db TaskingProjectRole
update_role now workspace_id project_id user_id role = do
  query (get_project workspace_id project_id)
  current ← query (get_role_row project_id user_id)
  leads ← query (λ db. ok (lead_count project_id db))
  raise_if (demotes_last_lead current.role role leads)
      (http_exception 422 "Cannot demote the last LEAD on this project. Assign another LEAD first.")
  execute (set_role project_id user_id role now)
  commit
  query (get_role_row project_id user_id)

-- The branches of `upsert_role` on the current row.
unfoldable pub upsert_check :
    ℕ → Uuid → RoleType → Option TaskingProjectRole → Db → Result (Unit {0})
upsert_check project_id user_id role (some current) db =
    if demotes_last_lead current.role role (lead_count project_id db)
    then err (
        http_exception 422
          "Cannot demote the last LEAD on this project. Assign another LEAD first.")
    else ok tt
upsert_check project_id user_id role none db =
    if any (is_user user_id) db.users
    then ok tt
    else err (http_exception 422 "`user_id` refers to a user that has not signed in")

unfoldable pub upsert_role :
    Datetime → ℕ → ℕ → Uuid → RoleType → Action Db (TaskingProjectRole × Bool)
upsert_role now workspace_id project_id user_id role = do
  query (get_project workspace_id project_id)
  current ← query (λ db. ok (get_role_or_none project_id user_id db))
  query (upsert_check project_id user_id role current)
  rolling_back translate_integrity_error do
    upsert_role_row
        (record { project_id = project_id; user_auth_uid = user_id; role = role; updated_at = now })
    commit
  item ← query (get_role_row project_id user_id)
  pure (item, not (is_some current))

unfoldable pub delete_role : ℕ → Uuid → Db → Db
delete_role project_id user db = record db {
  project_roles = delete_where (is_role_of project_id user) db.project_roles;
}

unfoldable pub remove_role : ℕ → ℕ → Uuid → Action Db (Unit {0})
remove_role workspace_id project_id user_id = do
  query (get_project workspace_id project_id)
  current ← query (get_role_row project_id user_id)
  leads ← query (λ db. ok (lead_count project_id db))
  raise_if (is_lead current.role && leb leads 1)
      (http_exception 422 "Cannot remove the last LEAD on this project. Assign another LEAD first.")
  execute (delete_role project_id user_id)
  commit

unfoldable pub get_role : ℕ → ℕ → Uuid → Action Db TaskingProjectRole
get_role workspace_id project_id user_id = do
  query (get_project workspace_id project_id)
  query (get_role_row project_id user_id)

pub record SelfProjectRoleItem : Type 0 where
  pub project_id : ℕ
  pub project_name : List ℕ
  pub project_status : ProjectStatus
  pub role : RoleType

abbrev pub in_workspace : ℕ → TaskingProject → Bool
in_workspace workspace_id p = p.workspace_id == workspace_id && not (is_some p.deleted_at)

-- `ProjectRoleType(explicit_role) if explicit_role is not None else ws_role`
abbrev pub explicit_or : RoleType → Option TaskingProjectRole → RoleType
explicit_or fallback none = fallback
explicit_or fallback (some r) = r.role

-- `list_self_project_roles`, without the order of its rows
unfoldable pub self_project_roles : ℕ → UserInfo → Db → List SelfProjectRoleItem
self_project_roles workspace_id user db =
    map
      (λ p. record {
        project_id = p.id;
        project_name = p.name;
        project_status = p.status;
        role =
            explicit_or (effective_role user workspace_id)
              (get_role_or_none p.id user.user_uuid db);
      })
      (filter (in_workspace workspace_id) db.projects)
