-- ===== src/Workspaces/Routes.antt =====
-- api/src/workspaces/routes.py: the endpoints that create, read, change and delete workspaces. What
-- the file system and the message bus answer are arguments.
use Prim.Native.String.{String}
use workspaces_backend.Base.{
  ℕ, Bool, true, false, ◌||◌, not, List, [], ◌∷◌, Option, none, some, is_some, map, Dict, lookup,
}
use workspaces_backend.Core.{Result, ok, Action, ◌>>=◌, ◌>>◌, pure, query, raise_if, http_exception}
use workspaces_backend.Security.UserInfo.{UserInfo, is_workspace_lead, effective_role}
use workspaces_backend.Tasking.Schema.{Datetime, RoleType, lead}
use workspaces_backend.Workspaces.Schema.{
  Workspace, WorkspaceCreate, WorkspacePatch, WorkspaceUserRoleItem, JobRequest,
  is_tdei_osw_dataset, is_tdei_pathways_dataset,
}
use workspaces_backend.Workspaces.World.{World, evict_user_from_cache}
use workspaces_backend.Workspaces.Queries.{
  create_workspace_row, update_workspace_row, delete_workspace_row, get_all,
}
use workspaces_backend.Workspaces.Members.{
  assign_role, get_privileged_workspace_members, remove_all_member_roles, get_member_counts,
}
use workspaces_backend.Workspaces.Jobs.{create_job, update_job}

-- The fields of `WorkspaceResponse` that are computed; the others are the row's.
pub record WorkspaceResponse : Type 0 where
  pub workspace : Workspace
  pub updated_at : Datetime
  pub role : RoleType
  pub projects_count : ℕ
  pub members_count : ℕ

abbrev date_or : Option Datetime → Datetime → Datetime
date_or none created = created
date_or (some updated) created = updated

-- `WorkspaceResponse.from_workspace`
unfoldable pub from_workspace : UserInfo → ℕ → ℕ → Workspace → WorkspaceResponse
from_workspace user projects members w = record {
  workspace = w;
  updated_at = date_or w.updated_at w.created_at;
  role = effective_role user w.id;
  projects_count = projects;
  members_count = members;
}

-- `counts.get(ws.id, 0)`
abbrev pub count_of : ℕ → Dict ℕ → ℕ
count_of id d = elim (lookup id d) [ none ↦ 0 | some n ↦ n ]

-- `get_my_workspaces`, where `projects` is what `get_projects_counts` answers
unfoldable pub get_my_workspaces : UserInfo → (List ℕ → Dict ℕ) → World → List WorkspaceResponse
get_my_workspaces user projects w =
    let rows = get_all user w.tasks in
    let ids = map (λ (r : Workspace). r.id) rows in
    map
      (λ (r : Workspace).
        from_workspace user (count_of r.id (projects ids))
          (count_of r.id (get_member_counts ids w.osm)) r)
      rows

-- Where the dataset comes from, which is what the two endpoints differ in.
abbrev job_type : Bool → String
job_type true = "workspace-import-file"
job_type false = "workspace-import"

abbrev pub import_request : UserInfo → ℕ → WorkspaceCreate → Option ℕ → JobRequest
import_request user workspace_id d job_id = record {
  workspace_id = workspace_id;
  tdei_token = user.credentials;
  data_type = d.type;
  source = d.tdei_record_id;
  unique_job_id = job_id;
}

-- The import job: it is created, learns its own id, and its request goes over the bus. `sent` is
-- what `Messenger.send_message` does.
unfoldable pub import_job :
    Result (Unit {0}) → Bool → UserInfo → ℕ → WorkspaceCreate → Action World (Option ℕ)
import_job sent true user workspace_id d = do
  job_id ←
      create_job (job_type d.from_form) "requested" (import_request user workspace_id d none)
        workspace_id
  update_job user job_id (import_request user workspace_id d (some job_id)) true
  query (λ _. sent)
  pure (some job_id)
import_job sent false user workspace_id d = pure none

abbrev saved_if : Bool → Result (Unit {0}) → Result (Unit {0})
saved_if true saved = saved
saved_if false saved = ok tt

-- `create_workspace` and `create_workspace_from_file`; `saved` is what `save_uploaded_dataset` does,
-- which the second calls.
unfoldable pub create_workspace :
    Result (Unit {0})
    → Result (Unit {0})
    → Datetime
    → UserInfo
    → WorkspaceCreate
    → Action World (ℕ × Option ℕ)
create_workspace saved sent now user d = do
  row ← create_workspace_row now user d
  assign_role row.id user.user_uuid lead
  query (λ _. saved_if d.from_form saved)
  job_id ← import_job sent (is_tdei_osw_dataset d || is_tdei_pathways_dataset d) user row.id d
  evict_user_from_cache user.user_uuid
  pure (row.id, job_id)

-- `model_fields_set`
unfoldable pub has_fields : WorkspacePatch → Bool
has_fields d =
    is_some d.title
    || is_some d.description
    || is_some d.external_app_access
    || is_some d.auto_flag_review
    || is_some d.override_conflicts

unfoldable pub update_workspace : Datetime → UserInfo → ℕ → WorkspacePatch → Action World Workspace
update_workspace now user workspace_id d = do
  raise_if (not (is_workspace_lead user workspace_id))
      (http_exception 403 "User does not have permission to update this workspace")
  raise_if (not (has_fields d)) (http_exception 400 "No fields provided to update.")
  update_workspace_row now user workspace_id d

-- `for member in members: evict_user_from_cache(…)`
unfoldable pub evict_all : List WorkspaceUserRoleItem → Action World (Unit {0})
evict_all [] = pure tt
evict_all (m ∷ ms) = do evict_user_from_cache m.auth_uid; evict_all ms

unfoldable pub delete_workspace : UserInfo → ℕ → Action World (Unit {0})
delete_workspace user workspace_id = do
  raise_if (not (is_workspace_lead user workspace_id))
      (http_exception 403 "User does not have permission to delete this workspace")
  members ← query (λ w. ok (get_privileged_workspace_members workspace_id w.osm))
  delete_workspace_row user workspace_id
  remove_all_member_roles workspace_id
  evict_all members
