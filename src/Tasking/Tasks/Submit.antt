-- ===== src/Tasking/Tasks/Submit.antt =====
-- The submit flow: `submit` and `submit_changeset` of api/src/tasking/tasks/repository.py.
use Prim.Native.String.{String}
use workspaces_backend.Base.{ℕ, ◌+◌, Bool, [], ◌∷◌, ◌++◌, Option, none, some, ◌==◌, if◌then◌else◌}
use workspaces_backend.Core.{
  Result, ok, err, http_exception, forbidden_exception, Action, ◌>>=◌, ◌>>◌, pure, query, execute,
  commit,
}
use workspaces_backend.Security.UserInfo.{UserInfo}
use workspaces_backend.Tasking.Schema.{
  Db, TaskingProject, TaskingTask, TaskingLock, TaskingFeedback, TaskingChangeset, TaskStatus,
  to_map, to_review, to_remap, completed, status_eq, FeedbackReason, auto_unlock, task_lock_renewed,
  feedback_submitted, task_unlocked, task_state_changed, changeset_submitted, expiry_details,
  feedback_details, release_details, change_details, changeset_details, hours, Uuid, Datetime,
}
use workspaces_backend.Tasking.Geometry.{Shapely}
use workspaces_backend.Tasking.Tasks.Queries.{
  get_project, get_task, get_active_lock, audit, release_lock, set_expiry, update_task,
}
use workspaces_backend.Tasking.Tasks.Response.{to_task_response}
use workspaces_backend.Tasking.Dtos.{TaskResponse}

pub record FeedbackInput : Type 0 where
  pub reason_category : Option FeedbackReason
  pub notes : String

pub record SubmitRequest : Type 0 where
  pub done : Bool
  pub feedback : Option FeedbackInput

-- `if lock is None or lock.user_auth_uid != …: raise …`
unfoldable pub held_by : Uuid → Option TaskingLock → Result TaskingLock
held_by user none = err (forbidden_exception "Caller does not hold the active lock")
held_by user (some l) =
    if l.user_auth_uid == user
    then ok l
    else err (forbidden_exception "Caller does not hold the active lock")

pub data ActorRole : Type 0 where
  mapper validator : ActorRole

unfoldable pub actor_role : TaskStatus → Result ActorRole
actor_role to_map = ok mapper
actor_role to_remap = ok mapper
actor_role to_review = ok validator
actor_role completed = err (http_exception 422 "Task is in a terminal state")

-- The `if not body.done` branch: the lock's expiry slides.
unfoldable pub renew :
    Shapely
    → Datetime
    → ℕ
    → ℕ
    → Uuid
    → TaskingProject
    → TaskingTask
    → TaskingLock
    → Action Db TaskResponse
renew lib now project_id task_number user project task l = do
  let new_expiry = now + hours project.lock_timeout_hours
  execute (set_expiry l.id new_expiry)
  execute (
      audit task_lock_renewed project_id (some task.id) user
        (expiry_details task.task_number new_expiry))
  commit
  refreshed ← query (get_task project_id task_number)
  query (to_task_response lib refreshed)

abbrev pub required_reason : Option FeedbackReason → Result FeedbackReason
required_reason none =
    err (http_exception 422 "feedback.reasonCategory is required when sending feedback")
required_reason (some r) = ok r

unfoldable pub add_feedback : TaskingFeedback → Db → Db
add_feedback f db = record db { feedback = db.feedback ++ f ∷ [] }

-- The transition table, with the feedback row that a rejection writes.
unfoldable pub next_status :
    ActorRole
    → Datetime
    → ℕ
    → Uuid
    → TaskingProject
    → TaskingTask
    → Option FeedbackInput
    → Action Db TaskStatus
next_status mapper now project_id user project task feedback = pure (
    if status_eq task.status to_map
    then if project.review_required then to_review else completed
    else to_review)
next_status validator now project_id user project task none = pure completed
next_status validator now project_id user project task (some f) = do
  reason ← query (λ _. required_reason f.reason_category)
  execute (
      add_feedback (record {
        task_id = task.id;
        project_id = project_id;
        author_user_auth_uid = user;
        reason_category = some reason;
        notes = f.notes;
        created_at = now;
      }))
  execute (
      audit feedback_submitted project_id (some task.id) user
        (feedback_details task.task_number reason))
  pure to_remap

abbrev pub new_last_mapper : ActorRole → Uuid → TaskingTask → Option Uuid
new_last_mapper mapper user task = some user
new_last_mapper validator user task = task.last_mapper_id

-- `if new_status != previous_status: audit`
unfoldable pub audit_change : TaskingTask → ℕ → Uuid → TaskStatus → Db → Db
audit_change task project_id user new_status db =
    if status_eq new_status task.status
    then db
    else audit task_state_changed project_id (some task.id) user
        (change_details task.task_number task.status new_status) db

-- The `done` branch: the lock is released and the task moves on.
unfoldable pub finish :
    Shapely
    → Datetime
    → ℕ
    → ℕ
    → Uuid
    → TaskingProject
    → TaskingTask
    → TaskingLock
    → ActorRole
    → Option FeedbackInput
    → Action Db TaskResponse
finish lib now project_id task_number user project task l actor feedback = do
  new_status ← next_status actor now project_id user project task feedback
  execute (release_lock l.id now auto_unlock)
  execute (
      audit task_unlocked project_id (some task.id) user
        (release_details task.task_number auto_unlock))
  execute (
      update_task task.id (λ t. record t {
        status = new_status;
        last_mapper_id = new_last_mapper actor user task;
        updated_at = now;
      }))
  execute (audit_change task project_id user new_status)
  commit
  refreshed ← query (get_task project_id task_number)
  query (to_task_response lib refreshed)

unfoldable pub submit :
    Shapely → Datetime → ℕ → ℕ → ℕ → UserInfo → SubmitRequest → Action Db TaskResponse
submit lib now workspace_id project_id task_number user body = do
  project ← query (get_project workspace_id project_id)
  task ← query (get_task project_id task_number)
  held ← query (get_active_lock task.id)
  l ← query (λ _. held_by user.user_uuid held)
  actor ← query (λ _. actor_role task.status)
  if body.done
      then finish lib now project_id task_number user.user_uuid project task l actor body.feedback
      else renew lib now project_id task_number user.user_uuid project task l

unfoldable pub add_changeset : (ℕ → TaskingChangeset) → Db → Db
add_changeset row db = record db {
  changesets = db.changesets ++ row db.next_changeset_id ∷ [];
  next_changeset_id = db.next_changeset_id + 1;
}

unfoldable pub submit_changeset : Datetime → ℕ → ℕ → ℕ → UserInfo → ℕ → Action Db ℕ
submit_changeset now workspace_id project_id task_number user changeset_id = do
  query (get_project workspace_id project_id)
  task ← query (get_task project_id task_number)
  held ← query (get_active_lock task.id)
  l ← query (λ _. held_by user.user_uuid held)
  row_id ← query (λ db. ok db.next_changeset_id)
  execute (
      add_changeset (λ id. record {
        id = id;
        task_id = task.id;
        project_id = project_id;
        lock_id = l.id;
        user_auth_uid = user.user_uuid;
        osm_changeset_id = changeset_id;
        submitted_at = now;
      }))
  execute (
      audit changeset_submitted project_id (some task.id) user.user_uuid
        (changeset_details task.task_number changeset_id))
  commit
  pure row_id
