-- ===== src/Tasking/Projects/Lifecycle.antt =====
-- `soft_delete`, `activate`, `close` and `reset` of api/src/tasking/projects/repository.py.
use workspaces_backend.Base.{
  ℕ, Bool, true, false, not, ◌&&◌, none, some, is_some, any, update_where, ◌==◌, if◌then◌else◌,
  strip, is_blank,
}
use workspaces_backend.Core.{
  ok, http_exception, Action, ◌>>=◌, ◌>>◌, pure, raise_if, query, execute, commit,
}
use workspaces_backend.Security.UserInfo.{UserInfo}
use workspaces_backend.Tasking.Schema.{
  Db, TaskingProject, TaskingTask, TaskingProjectRole, to_map, completed, status_eq, open_, done,
  is_draft, is_open, is_done, RoleType, lead, reset, no_details, project_deleted, project_activated,
  project_closed, project_reset, Datetime,
}
use workspaces_backend.Tasking.Tasks.Queries.{get_project, audit}
use workspaces_backend.Tasking.Projects.Queries.{
  ProjectResponse, to_response, task_count, refresh, update_project, is_active_in, delete_tasks,
}

-- `UPDATE tasking_audit_events SET project_deleted = TRUE WHERE project_id = …`
unfoldable pub flag_audit : ℕ → Db → Db
flag_audit project_id db = record db {
  audit_events =
      update_where (λ e. e.project_id == project_id) (λ e. record e { project_deleted = true })
        db.audit_events;
}

unfoldable pub soft_delete : Datetime → ℕ → ℕ → UserInfo → Action Db (Unit {0})
soft_delete now workspace_id project_id user = do
  project ← query (get_project workspace_id project_id)
  active ← query (λ db. ok (any (is_active_in project.id) db.locks))
  raise_if active (http_exception 409 "Project has active task locks; force-release first")
  execute (update_project project.id (λ p. record p { deleted_at = some now }))
  execute (delete_tasks project.id)
  execute (audit project_deleted project.id none user.user_uuid no_details)
  execute (flag_audit project.id)
  commit

-- A role that activation counts as a worker.
abbrev pub is_worker : RoleType → Bool
is_worker lead = false
is_worker _ = true

abbrev pub is_worker_of : ℕ → TaskingProjectRole → Bool
is_worker_of project_id r = r.project_id == project_id && is_worker r.role

unfoldable pub activate : Datetime → ℕ → ℕ → UserInfo → Action Db ProjectResponse
activate now workspace_id project_id user = do
  project ← query (get_project workspace_id project_id)
  raise_if (not (is_draft project.status))
      (http_exception 422 "Only draft projects can be activated")
  raise_if (is_blank (strip project.name)) (http_exception 422 "Project name is required")
  raise_if (not (is_some project.aoi)) (http_exception 422 "Project AOI is required")
  count ← query (λ db. ok (task_count project.id db))
  raise_if (count == 0) (http_exception 422 "Project must have at least one task")
  staffed ← query (λ db. ok (any (is_worker_of project.id) db.project_roles))
  raise_if (not staffed)
      (http_exception 422 "At least one contributor or validator must be allocated to the project")
  execute (update_project project.id (λ p. record p { status = open_; updated_at = now }))
  execute (audit project_activated project.id none user.user_uuid no_details)
  commit
  refreshed ← query (refresh project.id)
  pure (to_response refreshed count)

abbrev pub is_unfinished_in : ℕ → TaskingTask → Bool
is_unfinished_in project_id t = t.project_id == project_id && not (status_eq t.status completed)

unfoldable pub close : Datetime → ℕ → ℕ → UserInfo → Action Db ProjectResponse
close now workspace_id project_id user = do
  project ← query (get_project workspace_id project_id)
  raise_if (not (is_open project.status)) (http_exception 422 "Only open projects can be closed")
  not_done ← query (λ db. ok (any (is_unfinished_in project.id) db.tasks))
  raise_if not_done (http_exception 409 "Project has tasks that are not yet completed")
  active ← query (λ db. ok (any (is_active_in project.id) db.locks))
  raise_if active (http_exception 409 "Project has active task locks")
  execute (update_project project.id (λ p. record p { status = done; updated_at = now }))
  execute (audit project_closed project.id none user.user_uuid no_details)
  commit
  refreshed ← query (refresh project.id)
  count ← query (λ db. ok (task_count project.id db))
  pure (to_response refreshed count)

-- the first UPDATE of `reset`: every active lock is released
unfoldable pub release_all : ℕ → Datetime → Db → Db
release_all project_id now db = record db {
  locks =
      update_where (is_active_in project_id)
        (λ l. record l { released_at = some now; release_reason = some reset }) db.locks;
}

-- the second: tasks go back to `to_map`
abbrev pub is_begun_in : ℕ → TaskingTask → Bool
is_begun_in project_id t = t.project_id == project_id && not (status_eq t.status to_map)

unfoldable pub rewind_tasks : ℕ → Datetime → Db → Db
rewind_tasks project_id now db = record db {
  tasks =
      update_where (is_begun_in project_id)
        (λ t. record t { status = to_map; last_mapper_id = none; updated_at = now }) db.tasks;
}

-- the third, `if project.status == DONE`
unfoldable pub reopen : TaskingProject → Datetime → Db → Db
reopen project now db =
    if is_done project.status
    then update_project project.id (λ p. record p { status = open_; updated_at = now }) db
    else db

unfoldable pub reset_project : Datetime → ℕ → ℕ → UserInfo → Action Db ProjectResponse
reset_project now workspace_id project_id user = do
  project ← query (get_project workspace_id project_id)
  raise_if (is_draft project.status)
      (http_exception 422 "Cannot reset a draft project (nothing to reset)")
  execute (release_all project.id now)
  execute (rewind_tasks project.id now)
  execute (reopen project now)
  execute (audit project_reset project.id none user.user_uuid no_details)
  commit
  refreshed ← query (refresh project.id)
  count ← query (λ db. ok (task_count project.id db))
  pure (to_response refreshed count)
