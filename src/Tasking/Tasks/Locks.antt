-- ===== src/Tasking/Tasks/Locks.antt =====
-- Acquiring, releasing, extending and resetting: `lock_task`, `unlock_task`, `extend_lock` and
-- `reset_task` of api/src/tasking/tasks/repository.py. `now` is what `datetime.now()` returns.
use workspaces_backend.Base.{
  ℕ, ◌+◌, Bool, true, false, not, List, [], ◌∷◌, ◌++◌, Option, none, some, is_some, holds, any,
  ◌==◌, if◌then◌else◌,
}
use workspaces_backend.Core.{
  Result, ok, err, Error, http_exception, forbidden_exception, already_exists_exception, Action,
  ◌>>=◌, ◌>>◌, raise_if, query, execute, commit, rolling_back, integrity_error,
}
use workspaces_backend.Security.UserInfo.{UserInfo, is_workspace_lead}
use workspaces_backend.Tasking.Schema.{
  Db, TaskingProject, TaskingTask, TaskingLock, TaskStatus, to_map, to_review, to_remap, completed,
  RoleType, contributor, LockReleaseReason, lead_release, manual, reset, task_locked, task_unlocked,
  task_lock_extended, task_state_changed, task_reset, task_details, release_details, expiry_details,
  change_details, hours, is_open, is_draft, Uuid, Datetime,
}
use workspaces_backend.Tasking.Geometry.{Shapely}
use workspaces_backend.Tasking.Tasks.Queries.{
  get_project, get_task, get_active_lock, get_active_lock_for_user_in_project, project_role, audit,
  release_lock, set_expiry, update_task, locks_task, locks_for_user,
}
use workspaces_backend.Tasking.Tasks.Response.{to_task_response}
use workspaces_backend.Tasking.Dtos.{TaskResponse}

-- The eligibility table of `lock_task`, by the task's status: none lets the caller pass. The
-- test for mapping lists all three roles, so no role fails it.
unfoldable pub lock_refusal : TaskStatus → RoleType → Option Uuid → Uuid → Option Error
lock_refusal to_map role mapper user = none
lock_refusal to_remap role mapper user = none
lock_refusal to_review contributor mapper user =
    some (forbidden_exception "Role does not permit locking this task for validation")
lock_refusal to_review _ mapper user =
    if holds mapper user
    then some (forbidden_exception "Cannot validate a task you last mapped")
    else none
lock_refusal completed role mapper user = some (forbidden_exception "Task is in a terminal state")

abbrev pub refuse : Option Error → Result (Unit {0})
refuse none = ok tt
refuse (some e) = err e

-- `if role is None: raise …`, then the table
unfoldable pub eligible : TaskingTask → Uuid → Option RoleType → Result (Unit {0})
unfolding lock_refusal
eligible task user none = err (forbidden_exception "User has no access to this project")
eligible task user (some role) = refuse (lock_refusal task.status role task.last_mapper_id user)

-- The two partial unique indexes on the active rows of `tasking_locks`.
unfoldable pub index_violation : TaskingLock → List TaskingLock → Result (Unit {0})
index_violation l locks =
    if any (locks_task l.task_id) locks
    then err (integrity_error "tasking_locks_one_active_per_task")
    else if any (locks_for_user l.project_id l.user_auth_uid) locks
    then err (integrity_error "tasking_locks_one_active_per_user_project")
    else ok tt

unfoldable pub new_lock : TaskingProject → TaskingTask → ℕ → Uuid → Datetime → ℕ → TaskingLock
new_lock project task project_id user now id = record {
  id = id;
  task_id = task.id;
  project_id = project_id;
  user_auth_uid = user;
  task_status_at_lock = task.status;
  locked_at = now;
  expires_at = now + hours project.lock_timeout_hours;
  released_at = none;
  release_reason = none;
}

-- `session.add(lock); flush()`: the insert, which the unique indexes can refuse
unfoldable pub insert_lock : (ℕ → TaskingLock) → Action Db (Unit {0})
insert_lock lock s = elim (index_violation (lock s.working.next_lock_id) s.working.locks) [
  | err e ↦ (err e, s)
  | ok _ ↦ (
    ok tt,
    record s {
      working = record s.working {
        locks = s.working.locks ++ lock s.working.next_lock_id ∷ [];
        next_lock_id = s.working.next_lock_id + 1;
      };
    },
  )
]

abbrev lock_conflict : Error → Error
lock_conflict e =
    already_exists_exception "Task is already locked or user already holds a lock in this project"

-- What other transactions commit between the reads of `lock_task` and its insert.
abbrev pub interfere : (Db → Db) → Action Db (Unit {0})
interfere others s = (ok tt, record { committed = others s.committed; working = others s.working })

unfoldable pub lock_task :
    Shapely → Datetime → (Db → Db) → ℕ → ℕ → ℕ → UserInfo → Action Db TaskResponse
unfolding new_lock
lock_task lib now others workspace_id project_id task_number user = do
  project ← query (get_project workspace_id project_id)
  raise_if (not (is_open project.status)) (http_exception 409 "Project is not open")
  task ← query (get_task project_id task_number)
  role ← query (project_role project_id user workspace_id)
  query (λ _. eligible task user.user_uuid role)
  held ← query (get_active_lock task.id)
  raise_if (is_some held) (already_exists_exception "Task is already locked")
  elsewhere ← query (get_active_lock_for_user_in_project project_id user.user_uuid)
  raise_if (is_some elsewhere) (http_exception 409 "User already holds a lock in this project")
  interfere others
  rolling_back lock_conflict do
    insert_lock (new_lock project task project_id user.user_uuid now)
    execute
        (audit task_locked project_id (some task.id) user.user_uuid (task_details task.task_number))
    commit
  query (to_task_response lib task)

-- The active lock, or the error that its absence raises.
abbrev pub lock_or : Error → Option TaskingLock → Result TaskingLock
lock_or e none = err e
lock_or e (some l) = ok l

-- The `if force` of `unlock_task`.
unfoldable pub release_reason : Bool → UserInfo → ℕ → TaskingLock → Result LockReleaseReason
release_reason true user workspace_id l =
    if is_workspace_lead user workspace_id
    then ok lead_release
    else err (forbidden_exception "Only LEAD may force-release a lock")
release_reason false user workspace_id l =
    if l.user_auth_uid == user.user_uuid
    then ok manual
    else err (forbidden_exception "Only the lock holder may release it")

unfoldable pub unlock_task : Datetime → ℕ → ℕ → ℕ → UserInfo → Bool → Action Db (Unit {0})
unlock_task now workspace_id project_id task_number user force = do
  query (get_project workspace_id project_id)
  task ← query (get_task project_id task_number)
  held ← query (get_active_lock task.id)
  l ← query (λ _. lock_or (http_exception 409 "Task has no active lock") held)
  reason ← query (λ _. release_reason force user workspace_id l)
  execute (release_lock l.id now reason)
  execute (
      audit task_unlocked project_id (some task.id) user.user_uuid
        (release_details task.task_number reason))
  commit

unfoldable pub extend_lock : Shapely → ℕ → ℕ → ℕ → UserInfo → Action Db TaskResponse
extend_lock lib workspace_id project_id task_number user = do
  project ← query (get_project workspace_id project_id)
  task ← query (get_task project_id task_number)
  held ← query (get_active_lock task.id)
  l ← query (λ _. lock_or (http_exception 409 "Task has no active lock to extend") held)
  raise_if (not (l.user_auth_uid == user.user_uuid))
      (forbidden_exception "Only the lock holder may extend the lock")
  let new_expiry = l.expires_at + hours project.lock_timeout_hours
  execute (set_expiry l.id new_expiry)
  execute (
      audit task_lock_extended project_id (some task.id) user.user_uuid
        (expiry_details task.task_number new_expiry))
  commit
  query (to_task_response lib task)

-- The first half of `reset_task`: release any active lock.
unfoldable pub reset_lock : TaskingTask → ℕ → Uuid → Datetime → Option TaskingLock → Db → Db
reset_lock task project_id user now none db = db
reset_lock task project_id user now (some l) db =
    audit task_unlocked project_id (some task.id) user (release_details task.task_number reset)
      (release_lock l.id now reset db)

-- The `if previous_status != TO_MAP` of `reset_task`.
unfoldable pub reset_status : TaskingTask → ℕ → Uuid → Datetime → TaskStatus → Db → Db
reset_status task project_id user now to_map db =
    update_task task.id (λ t. record t { last_mapper_id = none; updated_at = now }) db
reset_status task project_id user now previous db =
    audit task_state_changed project_id (some task.id) user
      (change_details task.task_number previous to_map)
      (update_task task.id
        (λ t. record t { status = to_map; last_mapper_id = none; updated_at = now }) db)

unfoldable pub reset_task : Shapely → Datetime → ℕ → ℕ → ℕ → UserInfo → Action Db TaskResponse
reset_task lib now workspace_id project_id task_number user = do
  project ← query (get_project workspace_id project_id)
  raise_if (is_draft project.status)
      (http_exception 422 "Cannot reset a task while the project is in draft")
  task ← query (get_task project_id task_number)
  held ← query (get_active_lock task.id)
  execute (reset_lock task project_id user.user_uuid now held)
  execute (reset_status task project_id user.user_uuid now task.status)
  execute
      (audit task_reset project_id (some task.id) user.user_uuid (task_details task.task_number))
  commit
  refreshed ← query (get_task project_id task_number)
  query (to_task_response lib refreshed)
