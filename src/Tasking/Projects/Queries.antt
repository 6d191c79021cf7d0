-- ===== src/Tasking/Projects/Queries.antt =====
-- The helpers of `TaskingProjectRepository` (api/src/tasking/projects/repository.py).

use text.Mathlib.Text.{◌==◌ as str_eq}
use workspaces_backend.Base.{
  ℕ, Bool, not, ◌&&◌, List, is_some, filter, update_where, delete_where, length, any, ◌==◌,
  if◌then◌else◌, codes_eq,
}
use workspaces_backend.Core.{
  Result, Error, http_exception, already_exists_exception, scalar_one_or_raise, integrity_error,
  invalid_request_error,
}
use workspaces_backend.Tasking.Schema.{Db, TaskingProject, TaskingTask, TaskingLock}
use workspaces_backend.Tasking.Tasks.Queries.{is_active}

pub record ProjectResponse : Type 0 where
  pub project : TaskingProject
  pub has_aoi : Bool
  pub task_count : ℕ

-- `_to_response`: every column but the AOI, which only shows as a flag
abbrev pub to_response : TaskingProject → ℕ → ProjectResponse
to_response p count = record { project = p; has_aoi = is_some p.aoi; task_count = count }

abbrev pub in_project : ℕ → TaskingTask → Bool
in_project project_id t = t.project_id == project_id

unfoldable pub task_count : ℕ → Db → ℕ
task_count project_id db = length (filter (in_project project_id) db.tasks)

-- `session.refresh(project)`
unfoldable pub refresh : ℕ → Db → Result TaskingProject
refresh project_id db =
    scalar_one_or_raise invalid_request_error
      (filter (λ (p : TaskingProject). p.id == project_id) db.projects)

unfoldable pub update_project : ℕ → (TaskingProject → TaskingProject) → Db → Db
update_project project_id change db = record db {
  projects = update_where (λ p. p.id == project_id) change db.projects;
}

abbrev pub is_active_in : ℕ → TaskingLock → Bool
is_active_in project_id l = l.project_id == project_id && is_active l

-- `DELETE FROM tasking_tasks WHERE project_id = …`: the foreign keys on `task_id` cascade, and
-- take the rows of every table that points at a deleted task.
abbrev pub is_id_in : List TaskingTask → ℕ → Bool
is_id_in doomed id = any (λ t. t.id == id) doomed

unfoldable pub delete_tasks : ℕ → Db → Db
delete_tasks project_id db =
    let doomed = filter (in_project project_id) db.tasks in
    record db {
      tasks = delete_where (in_project project_id) db.tasks;
      locks = delete_where (λ l. is_id_in doomed l.task_id) db.locks;
      changesets = delete_where (λ c. is_id_in doomed c.task_id) db.changesets;
      feedback = delete_where (λ f. is_id_in doomed f.task_id) db.feedback;
    }

-- The unique index on (workspace_id, lower(name)) over the rows that are not deleted; Postgres
-- has its own `lower`.
abbrev pub is_named : (List ℕ → List ℕ) → TaskingProject → TaskingProject → Bool
is_named lower p q =
    q.workspace_id == p.workspace_id
    && not (q.id == p.id)
    && not (is_some q.deleted_at)
    && codes_eq (lower q.name) (lower p.name)

-- `_translate_integrity_error`, by the name of the constraint
unfoldable pub translate_integrity_error : Error → Error
translate_integrity_error (integrity_error name) =
    if str_eq name "tasking_projects_workspace_name_unique"
    then already_exists_exception "A project with this name already exists in the workspace"
    else if str_eq name "tasking_project_roles_user_auth_uid_fkey"
    then http_exception 422
        "One or more `role_assignments[].user_id` values refer to a user that has not signed in"
    else if str_eq name "tasking_tasks_project_id_fkey"
    then http_exception 422 "Cannot insert tasks: parent project does not exist."
    else if str_eq name ""
    then http_exception 409 "Database constraint violated."
    else http_exception 409 "Database constraint violated: {name}"
translate_integrity_error e = e
