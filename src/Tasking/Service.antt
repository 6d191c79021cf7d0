-- ===== src/Tasking/Service.antt =====
-- The tasking endpoints that write, as requests that arrive one after another, each in a session
-- of its own (api/src/tasking/tasks/routes.py and api/src/tasking/projects/routes.py call one
-- repository method per request).
use Prim.Native.String.{String}
use workspaces_backend.Base.{ℕ, Bool, List, [], Option}
use workspaces_backend.Core.{Session, Action, at_end}
use workspaces_backend.Security.UserInfo.{UserInfo}
use workspaces_backend.Tasking.Schema.{Db, Datetime, Uuid, RoleType}
use workspaces_backend.Tasking.Geometry.{Shapely}
use workspaces_backend.Tasking.Tasks.Locks.{lock_task, unlock_task, extend_lock, reset_task}
use workspaces_backend.Tasking.Tasks.Submit.{SubmitRequest, submit, submit_changeset}
use workspaces_backend.Tasking.Tasks.Save.{SaveTasksRequest, save}
use workspaces_backend.Tasking.Projects.Provision.{Members}
use workspaces_backend.Tasking.Projects.Edit.{
  ProjectUpdateRequest, AoiInput, patch, upload_aoi, delete_aoi,
}
use workspaces_backend.Tasking.Projects.Create.{ProjectCreateRequest, create}
use workspaces_backend.Tasking.Projects.Lifecycle.{soft_delete, activate, close, reset_project}
use workspaces_backend.Tasking.Projects.Roles.{add_role, update_role, upsert_role, remove_role}

-- Where a task is, as the path of a request names it.
pub record TaskPath : Type 0 where
  pub workspace_id : ℕ
  pub project_id : ℕ
  pub task_number : ℕ

pub record ProjectPath : Type 0 where
  pub workspace_id : ℕ
  pub project_id : ℕ

pub data Operation : Type 0 where
  to_lock to_extend to_reset_task : TaskPath → Operation
  to_unlock : TaskPath → Bool → Operation
  to_submit : TaskPath → SubmitRequest → Operation
  to_submit_changeset : TaskPath → ℕ → Operation
  to_save : ProjectPath → SaveTasksRequest → Option String → Operation
  to_create : ℕ → ProjectCreateRequest → Members → Operation
  to_patch : ProjectPath → ProjectUpdateRequest → Operation
  to_upload_aoi : ProjectPath → AoiInput → Operation
  to_delete_aoi to_delete to_activate to_close to_reset : ProjectPath → Operation
  to_add_role : ProjectPath → Uuid → RoleType → Members → Operation
  to_update_role to_upsert_role : ProjectPath → Uuid → RoleType → Operation
  to_remove_role : ProjectPath → Uuid → Operation

pub record Request : Type 0 where
  pub user : UserInfo
  pub now : Datetime
  pub operation : Operation

abbrev pub opened : Db → Session Db
opened db = record { committed = db; working = db }

abbrev pub after : {A : Type 0} → Action Db A → Db → Db
after m db = at_end (m (opened db))

module _ (lower : List ℕ → List ℕ) (lib : Shapely) (user : UserInfo) (now : Datetime) where
  unfoldable pub perform : Operation → Db → Db
  perform (to_lock t) =
      after (lock_task lib now (λ db. db) t.workspace_id t.project_id t.task_number user)
  perform (to_extend t) = after (extend_lock lib t.workspace_id t.project_id t.task_number user)
  perform (to_reset_task t) =
      after (reset_task lib now t.workspace_id t.project_id t.task_number user)
  perform (to_unlock t force) =
      after (unlock_task now t.workspace_id t.project_id t.task_number user force)
  perform (to_submit t body) =
      after (submit lib now t.workspace_id t.project_id t.task_number user body)
  perform (to_submit_changeset t changeset) =
      after (submit_changeset now t.workspace_id t.project_id t.task_number user changeset)
  perform (to_save p body key) = after (save lib now p.workspace_id p.project_id user body key)
  perform (to_create w body members) = after (create lower lib members now w user body)
  perform (to_patch p body) = after (patch lower now p.workspace_id p.project_id body user)
  perform (to_upload_aoi p aoi) = after (upload_aoi lib now p.workspace_id p.project_id aoi user)
  perform (to_delete_aoi p) = after (delete_aoi now p.workspace_id p.project_id user)
  perform (to_delete p) = after (soft_delete now p.workspace_id p.project_id user)
  perform (to_activate p) = after (activate now p.workspace_id p.project_id user)
  perform (to_close p) = after (close now p.workspace_id p.project_id user)
  perform (to_reset p) = after (reset_project now p.workspace_id p.project_id user)
  perform (to_add_role p u role members) =
      after (add_role members now p.workspace_id p.project_id u role)
  perform (to_update_role p u role) = after (update_role now p.workspace_id p.project_id u role)
  perform (to_upsert_role p u role) = after (upsert_role now p.workspace_id p.project_id u role)
  perform (to_remove_role p u) = after (remove_role p.workspace_id p.project_id u)

-- The tables before the first request.
abbrev pub empty : Db
empty = record {
  projects = [];
  project_roles = [];
  tasks = [];
  locks = [];
  changesets = [];
  feedback = [];
  audit_events = [];
  users = [];
  saves = [];
  next_project_id = 1;
  next_task_id = 1;
  next_lock_id = 1;
  next_changeset_id = 1;
}

-- The tables that some sequence of requests leads to.
pub data Reachable (lower : List ℕ → List ℕ) (lib : Shapely) : Db → Type 0 where
  start : Reachable lower lib empty
  next :
      (db : Db) (r : Request)
      → Reachable lower lib db
      → Reachable lower lib (perform lower lib r.user r.now r.operation db)
