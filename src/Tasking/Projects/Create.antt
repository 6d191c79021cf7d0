-- ===== src/Tasking/Projects/Create.antt =====
-- `create` of api/src/tasking/projects/repository.py.
use Prim.Native.String.{String}
use workspaces_backend.Base.{
  ℕ, ◌+◌, Bool, not, List, [], ◌∷◌, ◌++◌, Option, none, some, any, map, ◌==◌, if◌then◌else◌,
}
use workspaces_backend.Core.{
  Result, ok, err, http_exception, integrity_error, Action, ◌>>=◌, ◌>>◌, pure, raise_if, query,
  execute, commit, rolling_back,
}
use workspaces_backend.Security.UserInfo.{UserInfo}
use workspaces_backend.Tasking.Schema.{
  Db, TaskingProject, TaskingProjectRole, RoleType, lead, draft, project_created, name_details,
  Uuid, Datetime, Wkb,
}
use workspaces_backend.Tasking.Geometry.{Shapely}
use workspaces_backend.Tasking.Tasks.Queries.{audit, is_role_of}
use workspaces_backend.Tasking.Projects.Queries.{
  ProjectResponse, to_response, refresh, is_named, translate_integrity_error,
}
use workspaces_backend.Tasking.Projects.Edit.{AoiInput, aoi_to_shapely, is_nil}
use workspaces_backend.Tasking.Projects.Provision.{
  Members, missing_user_auth_uids, provision_users_from_tdei,
}
use workspaces_backend.Tasking.Projects.Roles.{insert_role, upsert_role_row}

pub record ProjectRoleAssignment : Type 0 where
  pub user_id : Uuid
  pub role : RoleType

pub record ProjectCreateRequest : Type 0 where
  pub name : List ℕ
  pub instructions : Option String
  pub review_required : Bool
  pub lock_timeout_hours : ℕ
  pub aoi : Option AoiInput
  pub role_assignments : List ProjectRoleAssignment
  pub custom_imagery : Option String
  pub description : Option String

abbrev pub role_row : ℕ → Datetime → Uuid → RoleType → TaskingProjectRole
role_row project_id now user role = record {
  project_id = project_id;
  user_auth_uid = user;
  role = role;
  updated_at = now;
}

-- the loop over `body.role_assignments`
unfoldable pub seed_roles : ℕ → Datetime → List ProjectRoleAssignment → Action Db (Unit {0})
seed_roles project_id now [] = pure tt
seed_roles project_id now (ra ∷ ras) =
    upsert_role_row (role_row project_id now ra.user_id ra.role) >> seed_roles project_id now ras

-- `INSERT … VALUES (…, 'lead') ON CONFLICT DO NOTHING`
unfoldable pub seed_creator : ℕ → Datetime → Uuid → Action Db (Unit {0})
seed_creator project_id now user s =
    if any (is_role_of project_id user) s.working.project_roles
    then (ok tt, s)
    else insert_role (role_row project_id now user lead) s

-- `session.add(project); flush()`: the insert, which the unique index on names can refuse
unfoldable pub insert_project : (List ℕ → List ℕ) → (ℕ → TaskingProject) → Action Db TaskingProject
insert_project lower row s =
    let p = row s.working.next_project_id in
    if any (is_named lower p) s.working.projects
    then (err (integrity_error "tasking_projects_workspace_name_unique"), s)
    else (
      ok p,
      record s {
        working = record s.working {
          projects = s.working.projects ++ p ∷ [];
          next_project_id = s.working.next_project_id + 1;
        };
      },
    )

-- `if body.aoi is not None: …`
unfoldable pub aoi_column : Shapely → Option AoiInput → Result (Option Wkb)
aoi_column lib none = ok none
aoi_column lib (some aoi) = elim (aoi_to_shapely lib aoi) [
  | ok g ↦ ok (some (lib.from_shape g))
  | err e ↦ err e
]

-- The preflight over the creator and the assigned users.
unfoldable pub preflight : Members → UserInfo → List ProjectRoleAssignment → Action Db (Unit {0})
preflight members user assignments = do
  missing ←
      query
        (λ db. ok (missing_user_auth_uids (user.user_uuid ∷ map (λ ra. ra.user_id) assignments) db))
  if is_nil missing then pure tt else do
    still_missing ← provision_users_from_tdei members missing
    raise_if (any (λ u. u == user.user_uuid) still_missing)
        (http_exception 409 "Your user record could not be provisioned")
    raise_if (not (is_nil still_missing))
        (http_exception 422 "One or more `role_assignments[].user_id` values are not members")

unfoldable pub new_project :
    ℕ → UserInfo → ProjectCreateRequest → Option Wkb → Datetime → ℕ → TaskingProject
new_project workspace_id user body aoi now id = record {
  id = id;
  workspace_id = workspace_id;
  name = body.name;
  instructions = body.instructions;
  status = draft;
  review_required = body.review_required;
  lock_timeout_hours = body.lock_timeout_hours;
  task_boundary_type = none;
  aoi = aoi;
  created_by = user.user_uuid;
  created_by_name = some user.user_name;
  created_at = now;
  updated_at = now;
  deleted_at = none;
  custom_imagery = body.custom_imagery;
  description = body.description;
}

unfoldable pub create :
    (List ℕ → List ℕ)
    → Shapely
    → Members
    → Datetime
    → ℕ
    → UserInfo
    → ProjectCreateRequest
    → Action Db ProjectResponse
create lower lib members now workspace_id user body = do
  preflight members user body.role_assignments
  aoi ← query (λ _. aoi_column lib body.aoi)
  project ← rolling_back translate_integrity_error do
    p ← insert_project lower (new_project workspace_id user body aoi now)
    seed_roles p.id now body.role_assignments
    seed_creator p.id now user.user_uuid
    execute (audit project_created p.id none user.user_uuid (name_details p.name))
    commit
    query (refresh p.id)
  pure (to_response project 0)
