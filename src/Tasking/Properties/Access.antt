-- ===== src/Tasking/Properties/Access.antt =====
-- The checks in front of the writing endpoints of api/src/tasking: whom they let through, and what
-- the tables become then.
use workspaces_backend.Base.{ℕ, ◌≡◌, ◌⊎◌, List}
use workspaces_backend.Core.{◌>>=◌, ◌>>◌, pure}
use workspaces_backend.Security.UserInfo.{UserInfo}
use workspaces_backend.Workspaces.Schema.{TaskDb}
use workspaces_backend.Tasking.Schema.{Db, Datetime}
use workspaces_backend.Tasking.Geometry.{Shapely}
use workspaces_backend.Tasking.Tasks.Locks.{lock_task, unlock_task, extend_lock, reset_task}
use workspaces_backend.Tasking.Tasks.Submit.{submit, submit_changeset}
use workspaces_backend.Tasking.Tasks.Save.{save}
use workspaces_backend.Tasking.Projects.Edit.{patch, upload_aoi, delete_aoi}
use workspaces_backend.Tasking.Projects.Create.{create}
use workspaces_backend.Tasking.Projects.Lifecycle.{soft_delete, activate, close, reset_project}
use workspaces_backend.Tasking.Projects.Roles.{add_role, update_role, upsert_role, remove_role}
use workspaces_backend.Tasking.Service.{
  Operation, to_lock, to_extend, to_reset_task, to_unlock, to_submit, to_submit_changeset, to_save,
  to_create, to_patch, to_upload_aoi, to_delete_aoi, to_delete, to_activate, to_close, to_reset,
  to_add_role, to_update_role, to_upsert_role, to_remove_role, perform,
}
use workspaces_backend.Tasking.Routes.{
  assert_workspace_visible, changeset_answer, save_status, put_status, serve, save_tasks,
  lock_task_route, unlock_task_route, extend_lock_route, reset_task_route, submit_task,
  submit_changeset_route, create_project, update_project, delete_project, activate_project,
  close_project, reset_project_route, upload_project_aoi, delete_project_aoi, add_project_role,
  put_project_role, update_project_role, remove_project_role,
}
use workspaces_backend.Tasking.Properties.Guards.{
  IsAllowed, for_anyone, for_lead, for_manager, answered, looked_again,
}

module _ (tasks : TaskDb) (user : UserInfo) (lower : List ℕ → List ℕ) (lib : Shapely)
    (now : Datetime) where
  -- Every writing endpoint is guarded: either the request changes nothing, or the caller sees the
  -- workspace and has the role that the endpoint needs (none for work on tasks, a workspace LEAD's
  -- or project LEAD's for roles, a workspace LEAD's for everything else), and the tables become
  -- exactly what the repository operation makes of them.
  pub serve-IsAllowed :
      (op : Operation) (db : Db)
      → (serve tasks user lower lib now op db ≡ db)
        ⊎ (IsAllowed tasks user db op
            × (serve tasks user lower lib now op db ≡ perform lower lib user now op db))
  unfolding serve perform save_tasks lock_task_route unlock_task_route extend_lock_route
      reset_task_route submit_task submit_changeset_route create_project update_project
      delete_project activate_project close_project reset_project_route upload_project_aoi
      delete_project_aoi add_project_role put_project_role update_project_role remove_project_role
  serve-IsAllowed (to_lock t) db =
      for_anyone tasks user db t.workspace_id
        (lock_task lib now (λ db. db) t.workspace_id t.project_id t.task_number user)
  serve-IsAllowed (to_extend t) db =
      for_anyone tasks user db t.workspace_id
        (extend_lock lib t.workspace_id t.project_id t.task_number user)
  serve-IsAllowed (to_reset_task t) db =
      for_lead tasks user db t.workspace_id
        (reset_task lib now t.workspace_id t.project_id t.task_number user)
  serve-IsAllowed (to_unlock t force) db =
      for_anyone tasks user db t.workspace_id
        (unlock_task now t.workspace_id t.project_id t.task_number user force)
  serve-IsAllowed (to_submit t body) db =
      for_anyone tasks user db t.workspace_id
        (submit lib now t.workspace_id t.project_id t.task_number user body)
  serve-IsAllowed (to_submit_changeset t changeset) db =
      let work = submit_changeset now t.workspace_id t.project_id t.task_number user changeset in
      answered tasks user _ (submit_changeset_route tasks user lower lib now t changeset) work _ db
        (for_anyone tasks user db t.workspace_id
          (work >>= λ id. pure (changeset_answer t changeset id)))
  serve-IsAllowed (to_save p body key) db =
      let work = save lib now p.workspace_id p.project_id user body key in
      answered tasks user _ (save_tasks tasks user lower lib now p body key) work _ db (
        for_lead tasks user db p.workspace_id
          (work >>= λ saved. pure (saved.0, save_status saved.1)))
  serve-IsAllowed (to_create w body members) db =
      for_lead tasks user db w (create lower lib members now w user body)
  serve-IsAllowed (to_patch p body) db =
      for_lead tasks user db p.workspace_id (patch lower now p.workspace_id p.project_id body user)
  serve-IsAllowed (to_upload_aoi p aoi) db =
      for_lead tasks user db p.workspace_id
        (upload_aoi lib now p.workspace_id p.project_id aoi user)
  serve-IsAllowed (to_delete_aoi p) db =
      for_lead tasks user db p.workspace_id (delete_aoi now p.workspace_id p.project_id user)
  serve-IsAllowed (to_delete p) db =
      for_lead tasks user db p.workspace_id (soft_delete now p.workspace_id p.project_id user)
  serve-IsAllowed (to_activate p) db =
      for_lead tasks user db p.workspace_id (activate now p.workspace_id p.project_id user)
  serve-IsAllowed (to_close p) db =
      for_lead tasks user db p.workspace_id (close now p.workspace_id p.project_id user)
  serve-IsAllowed (to_reset p) db =
      for_lead tasks user db p.workspace_id (reset_project now p.workspace_id p.project_id user)
  serve-IsAllowed (to_add_role p u role members) db =
      let work = add_role members now p.workspace_id p.project_id u role in
      looked_again tasks user _ (add_project_role tasks user lower lib now (λ _. members) p u role)
        p.workspace_id work db
        (for_manager tasks user db p.workspace_id p.project_id
          (assert_workspace_visible tasks user p.workspace_id >> work))
  serve-IsAllowed (to_update_role p u role) db =
      for_manager tasks user db p.workspace_id p.project_id
        (update_role now p.workspace_id p.project_id u role)
  serve-IsAllowed (to_upsert_role p u role) db =
      let work = upsert_role now p.workspace_id p.project_id u role in
      answered tasks user _ (put_project_role tasks user lower lib now p u role) work _ db (
        for_manager tasks user db p.workspace_id p.project_id
          (work >>= λ item. pure (item.0, put_status item.1)))
  serve-IsAllowed (to_remove_role p u) db =
      for_manager tasks user db p.workspace_id p.project_id
        (remove_role p.workspace_id p.project_id u)
