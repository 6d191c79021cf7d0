-- ===== src/Tasking/Tasks/Queries.antt =====
-- The helpers of `TaskingTaskRepository` (api/src/tasking/tasks/repository.py) that read the
-- tables, and the statements that its operations write with.
use Prim.Native.String.{String}
use workspaces_backend.Base.{
  ℕ, Bool, true, false, not, ◌&&◌, [], ◌∷◌, ◌++◌, Option, none, some, is_some, filter, update_where,
  ◌==◌,
}
use workspaces_backend.Core.{
  Result, ok, err, not_found_exception, scalar_one_or_none, scalar_one_or_raise,
}
use workspaces_backend.Security.UserInfo.{
  UserInfo, is_workspace_lead, is_workspace_validator, is_workspace_contributor,
}
use workspaces_backend.Tasking.Schema.{
  Db, TaskingProject, TaskingTask, TaskingLock, TaskingProjectRole, RoleType, lead, validator,
  contributor, LockReleaseReason, AuditEventType, Details, Uuid, Datetime, User,
}

abbrev pub is_active : TaskingLock → Bool
is_active l = not (is_some l.released_at)

-- the row conditions of the four SELECTs
abbrev pub is_project : ℕ → ℕ → TaskingProject → Bool
is_project workspace_id project_id p =
    p.id == project_id && p.workspace_id == workspace_id && not (is_some p.deleted_at)

abbrev pub is_task : ℕ → ℕ → TaskingTask → Bool
is_task project_id task_number t = t.project_id == project_id && t.task_number == task_number

abbrev pub locks_task : ℕ → TaskingLock → Bool
locks_task task_id l = l.task_id == task_id && is_active l

abbrev pub locks_for_user : ℕ → Uuid → TaskingLock → Bool
locks_for_user project_id user l =
    l.project_id == project_id && l.user_auth_uid == user && is_active l

unfoldable pub get_project : ℕ → ℕ → Db → Result TaskingProject
get_project workspace_id project_id db =
    scalar_one_or_raise (not_found_exception "Project {project_id} not found")
      (filter (is_project workspace_id project_id) db.projects)

unfoldable pub get_task : ℕ → ℕ → Db → Result TaskingTask
get_task project_id task_number db =
    scalar_one_or_raise (not_found_exception "Task {task_number} not found in project {project_id}")
      (filter (is_task project_id task_number) db.tasks)

unfoldable pub get_active_lock : ℕ → Db → Result (Option TaskingLock)
get_active_lock task_id db = scalar_one_or_none (filter (locks_task task_id) db.locks)

unfoldable pub get_active_lock_for_user_in_project : ℕ → Uuid → Db → Result (Option TaskingLock)
get_active_lock_for_user_in_project project_id user db =
    scalar_one_or_none (filter (locks_for_user project_id user) db.locks)

abbrev pub is_role_of : ℕ → Uuid → TaskingProjectRole → Bool
is_role_of project_id user r = r.project_id == project_id && r.user_auth_uid == user

-- the three `if`s and the final `return` of `_project_role`
abbrev pub role_from : Bool → Option TaskingProjectRole → Bool → Bool → Option RoleType
role_from true explicit is_validator is_contributor = some lead
role_from false (some r) is_validator is_contributor = some r.role
role_from false none true is_contributor = some validator
role_from false none false true = some contributor
role_from false none false false = none

unfoldable pub project_role : ℕ → UserInfo → ℕ → Db → Result (Option RoleType)
project_role project_id user workspace_id db =
    elim (scalar_one_or_none (filter (is_role_of project_id user.user_uuid) db.project_roles)) [
      | err e ↦ err e
      | ok explicit ↦ ok (
          role_from (is_workspace_lead user workspace_id) explicit
            (is_workspace_validator user workspace_id) (is_workspace_contributor user workspace_id))
    ]

-- `_audit`
unfoldable pub audit : AuditEventType → ℕ → Option ℕ → Uuid → Details → Db → Db
audit event_type project_id task_id actor details db = record db {
  audit_events =
      db.audit_events
      ++ (record {
        event_type = event_type;
        project_id = project_id;
        task_id = task_id;
        actor_user_auth_uid = actor;
        details = details;
        project_deleted = false;
      })
        ∷ [];
}

-- `update(TaskingLock).where(id == …).values(released_at=…, release_reason=…)`
unfoldable pub release_lock : ℕ → Datetime → LockReleaseReason → Db → Db
release_lock lock_id now reason db = record db {
  locks =
      update_where (λ l. l.id == lock_id)
        (λ l. record l { released_at = some now; release_reason = some reason }) db.locks;
}

-- `update(TaskingLock).where(id == …).values(expires_at=…)`
unfoldable pub set_expiry : ℕ → Datetime → Db → Db
set_expiry lock_id expiry db = record db {
  locks = update_where (λ l. l.id == lock_id) (λ l. record l { expires_at = expiry }) db.locks;
}

-- `update(TaskingTask).where(id == …)`, with the columns that `change` sets
unfoldable pub update_task : ℕ → (TaskingTask → TaskingTask) → Db → Db
update_task task_id change db = record db {
  tasks = update_where (λ t. t.id == task_id) change db.tasks;
}

-- `_lookup_user_display`
unfoldable pub lookup_user_display : Option Uuid → Db → Result (Option String)
lookup_user_display none db = ok none
lookup_user_display (some uid) db =
    elim (scalar_one_or_none (filter (λ (u : User). u.auth_uid == uid) db.users)) [
      | err e ↦ err e
      | ok none ↦ ok none
      | ok (some u) ↦ ok u.display_name
    ]
