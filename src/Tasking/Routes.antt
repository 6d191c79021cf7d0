-- ===== src/Tasking/Routes.antt =====
-- The endpoints of api/src/tasking/tasks/routes.py and api/src/tasking/projects/routes.py that write,
-- and the preview `validate_tasks`: the checks on the caller, and the repository call behind them.
-- The task database, where the workspaces are, is only read. An endpoint that has the name of its
-- repository method is called a route here.
use Prim.Native.String.{String}
use workspaces_backend.Base.{ℕ, Bool, not, List, Option, if◌then◌else◌}
use workspaces_backend.Core.{Action, ◌>>=◌, ◌>>◌, pure, query, raise_if, http_exception}
use workspaces_backend.Security.UserInfo.{UserInfo, is_workspace_lead}
use workspaces_backend.Workspaces.Schema.{TaskDb, Workspace}
use workspaces_backend.Workspaces.Queries.{get_by_id}
use workspaces_backend.Tasking.Schema.{Db, Datetime, Uuid, RoleType, TaskingProjectRole}
use workspaces_backend.Tasking.Geometry.{Shapely, Shape}
use workspaces_backend.Tasking.Projects.Queries.{ProjectResponse}
use workspaces_backend.Tasking.Dtos.{TaskResponse, SaveTasksResponse}
use workspaces_backend.Tasking.Tasks.Locks.{lock_task, unlock_task, extend_lock, reset_task}
use workspaces_backend.Tasking.Tasks.Submit.{SubmitRequest, submit, submit_changeset}
use workspaces_backend.Tasking.Tasks.Save.{SaveTasksRequest, ValidateWarning, save, validate}
use workspaces_backend.Tasking.Projects.Provision.{Members}
use workspaces_backend.Tasking.Projects.Edit.{
  ProjectUpdateRequest, AoiInput, patch, upload_aoi, delete_aoi,
}
use workspaces_backend.Tasking.Projects.Create.{ProjectCreateRequest, create}
use workspaces_backend.Tasking.Projects.Lifecycle.{soft_delete, activate, close, reset_project}
use workspaces_backend.Tasking.Projects.Roles.{
  assert_can_manage_roles, add_role, update_role, upsert_role, remove_role,
}
use workspaces_backend.Tasking.Service.{
  TaskPath, ProjectPath, Operation, to_lock, to_extend, to_reset_task, to_unlock, to_submit,
  to_submit_changeset, to_save, to_create, to_patch, to_upload_aoi, to_delete_aoi, to_delete,
  to_activate, to_close, to_reset, to_add_role, to_update_role, to_upsert_role, to_remove_role,
  after,
}

abbrev pub save_status : Bool → ℕ
save_status replayed = if replayed then 200 else 201

-- `SubmitTaskChangesetResponse`
pub record SubmitTaskChangesetResponse : Type 0 where
  pub osm_changeset_id : ℕ
  pub task_number : ℕ
  pub project_id : ℕ
  pub workspace_id : ℕ
  pub inserted_id : ℕ

abbrev pub changeset_answer : TaskPath → ℕ → ℕ → SubmitTaskChangesetResponse
changeset_answer t changeset_id id = record {
  osm_changeset_id = changeset_id;
  task_number = t.task_number;
  project_id = t.project_id;
  workspace_id = t.workspace_id;
  inserted_id = id;
}

abbrev pub put_status : Bool → ℕ
put_status created = if created then 201 else 200

module _ (tasks : TaskDb) (user : UserInfo) where
  -- `workspace_repo.getById`
  unfoldable pub assert_workspace_visible : ℕ → Action Db Workspace
  assert_workspace_visible workspace_id = query (λ _. get_by_id user workspace_id tasks)

  unfoldable pub assert_workspace_lead : ℕ → Action Db (Unit {0})
  assert_workspace_lead workspace_id =
      raise_if (not (is_workspace_lead user workspace_id))
        (http_exception 403 "User does not have permission to edit this workspace")

  module _ (lower : List ℕ → List ℕ) (lib : Shapely) (now : Datetime) where
    unfoldable pub validate_tasks : ℕ → ℕ → List ℕ → Action Db (List ValidateWarning)
    validate_tasks workspace_id project_id body = do
      assert_workspace_visible workspace_id
      assert_workspace_lead workspace_id
      validate lib workspace_id project_id body

    unfoldable pub save_tasks :
        ProjectPath → SaveTasksRequest → Option String → Action Db (SaveTasksResponse × ℕ)
    save_tasks p body key = do
      assert_workspace_visible p.workspace_id
      assert_workspace_lead p.workspace_id
      saved ← save lib now p.workspace_id p.project_id user body key
      pure (saved.0, save_status saved.1)

    unfoldable pub lock_task_route : TaskPath → Action Db TaskResponse
    lock_task_route t = do
      assert_workspace_visible t.workspace_id
      lock_task lib now (λ db. db) t.workspace_id t.project_id t.task_number user

    unfoldable pub unlock_task_route : TaskPath → Bool → Action Db (Unit {0})
    unlock_task_route t force = do
      assert_workspace_visible t.workspace_id
      unlock_task now t.workspace_id t.project_id t.task_number user force

    unfoldable pub extend_lock_route : TaskPath → Action Db TaskResponse
    extend_lock_route t = do
      assert_workspace_visible t.workspace_id
      extend_lock lib t.workspace_id t.project_id t.task_number user

    unfoldable pub reset_task_route : TaskPath → Action Db TaskResponse
    reset_task_route t = do
      assert_workspace_visible t.workspace_id
      assert_workspace_lead t.workspace_id
      reset_task lib now t.workspace_id t.project_id t.task_number user

    unfoldable pub submit_task : TaskPath → SubmitRequest → Action Db TaskResponse
    submit_task t body = do
      assert_workspace_visible t.workspace_id
      submit lib now t.workspace_id t.project_id t.task_number user body

    unfoldable pub submit_changeset_route : TaskPath → ℕ → Action Db SubmitTaskChangesetResponse
    submit_changeset_route t changeset_id = do
      assert_workspace_visible t.workspace_id
      id ← submit_changeset now t.workspace_id t.project_id t.task_number user changeset_id
      pure (changeset_answer t changeset_id id)

    -- `tdei` is what TDEI answers for the members of a project group.
    unfoldable pub create_project :
        (ℕ → Members) → ℕ → ProjectCreateRequest → Action Db ProjectResponse
    create_project tdei workspace_id body = do
      workspace ← assert_workspace_visible workspace_id
      assert_workspace_lead workspace_id
      create lower lib (tdei workspace.tdei_project_group_id) now workspace_id user body

    unfoldable pub update_project : ProjectPath → ProjectUpdateRequest → Action Db ProjectResponse
    update_project p body = do
      assert_workspace_visible p.workspace_id
      assert_workspace_lead p.workspace_id
      patch lower now p.workspace_id p.project_id body user

    unfoldable pub delete_project : ProjectPath → Action Db (Unit {0})
    delete_project p = do
      assert_workspace_visible p.workspace_id
      assert_workspace_lead p.workspace_id
      soft_delete now p.workspace_id p.project_id user

    unfoldable pub activate_project : ProjectPath → Action Db ProjectResponse
    activate_project p = do
      assert_workspace_visible p.workspace_id
      assert_workspace_lead p.workspace_id
      activate now p.workspace_id p.project_id user

    unfoldable pub close_project : ProjectPath → Action Db ProjectResponse
    close_project p = do
      assert_workspace_visible p.workspace_id
      assert_workspace_lead p.workspace_id
      close now p.workspace_id p.project_id user

    unfoldable pub reset_project_route : ProjectPath → Action Db ProjectResponse
    reset_project_route p = do
      assert_workspace_visible p.workspace_id
      assert_workspace_lead p.workspace_id
      reset_project now p.workspace_id p.project_id user

    unfoldable pub upload_project_aoi : ProjectPath → AoiInput → Action Db Shape
    upload_project_aoi p body = do
      assert_workspace_visible p.workspace_id
      assert_workspace_lead p.workspace_id
      upload_aoi lib now p.workspace_id p.project_id body user

    unfoldable pub delete_project_aoi : ProjectPath → Action Db (Unit {0})
    delete_project_aoi p = do
      assert_workspace_visible p.workspace_id
      assert_workspace_lead p.workspace_id
      delete_aoi now p.workspace_id p.project_id user

    unfoldable pub add_project_role :
        (ℕ → Members) → ProjectPath → Uuid → RoleType → Action Db TaskingProjectRole
    add_project_role tdei p user_id role = do
      assert_workspace_visible p.workspace_id
      assert_can_manage_roles p.workspace_id p.project_id user
      workspace ← assert_workspace_visible p.workspace_id
      add_role (tdei workspace.tdei_project_group_id) now p.workspace_id p.project_id user_id role

    -- with the status code
    unfoldable pub put_project_role :
        ProjectPath → Uuid → RoleType → Action Db (TaskingProjectRole × ℕ)
    put_project_role p user_id role = do
      assert_workspace_visible p.workspace_id
      assert_can_manage_roles p.workspace_id p.project_id user
      item ← upsert_role now p.workspace_id p.project_id user_id role
      pure (item.0, put_status item.1)

    unfoldable pub update_project_role :
        ProjectPath → Uuid → RoleType → Action Db TaskingProjectRole
    update_project_role p user_id role = do
      assert_workspace_visible p.workspace_id
      assert_can_manage_roles p.workspace_id p.project_id user
      update_role now p.workspace_id p.project_id user_id role

    unfoldable pub remove_project_role : ProjectPath → Uuid → Action Db (Unit {0})
    remove_project_role p user_id = do
      assert_workspace_visible p.workspace_id
      assert_can_manage_roles p.workspace_id p.project_id user
      remove_role p.workspace_id p.project_id user_id

    -- A request through its endpoint; the members are what TDEI answers for the workspace's group.
    unfoldable pub serve : Operation → Db → Db
    serve (to_lock t) = after (lock_task_route t)
    serve (to_extend t) = after (extend_lock_route t)
    serve (to_reset_task t) = after (reset_task_route t)
    serve (to_unlock t force) = after (unlock_task_route t force)
    serve (to_submit t body) = after (submit_task t body)
    serve (to_submit_changeset t changeset) = after (submit_changeset_route t changeset)
    serve (to_save p body key) = after (save_tasks p body key)
    serve (to_create w body members) = after (create_project (λ _. members) w body)
    serve (to_patch p body) = after (update_project p body)
    serve (to_upload_aoi p aoi) = after (upload_project_aoi p aoi)
    serve (to_delete_aoi p) = after (delete_project_aoi p)
    serve (to_delete p) = after (delete_project p)
    serve (to_activate p) = after (activate_project p)
    serve (to_close p) = after (close_project p)
    serve (to_reset p) = after (reset_project_route p)
    serve (to_add_role p u role members) = after (add_project_role (λ _. members) p u role)
    serve (to_update_role p u role) = after (update_project_role p u role)
    serve (to_upsert_role p u role) = after (put_project_role p u role)
    serve (to_remove_role p u) = after (remove_project_role p u)
