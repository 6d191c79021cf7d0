-- ===== src/Tasking/Properties/Ownership.antt =====
-- Who changes projects: the writing endpoints of api/src/tasking/tasks/routes.py and
-- api/src/tasking/projects/routes.py for a caller who is not a LEAD of the workspace.
use workspaces_backend.Base.{ℕ, ◌≡◌, ap, ◌∙◌, false, List, inl, inr}
use workspaces_backend.Security.UserInfo.{UserInfo, is_workspace_lead}
use workspaces_backend.Workspaces.Schema.{TaskDb}
use workspaces_backend.Tasking.Schema.{Db, Datetime}
use workspaces_backend.Tasking.Geometry.{Shapely}
use workspaces_backend.Tasking.Service.{
  Operation, to_lock, to_extend, to_reset_task, to_unlock, to_submit, to_submit_changeset, to_save,
  to_create, to_patch, to_upload_aoi, to_delete_aoi, to_delete, to_activate, to_close, to_reset,
  to_add_role, to_update_role, to_upsert_role, to_remove_role, perform,
}
use workspaces_backend.Tasking.Routes.{serve}
use workspaces_backend.Tasking.Properties.Guards.{workspace_id_of, IsAllowed}
use workspaces_backend.Tasking.Properties.Access.{serve-IsAllowed}
use workspaces_backend.Tasking.Properties.Frames.{
  after-Projects, lock_task-Projects, unlock_task-Projects, extend_lock-Projects, submit-Projects,
  submit_changeset-Projects, remove_role-Projects, add_role-Projects, update_role-Projects,
  upsert_role-Projects,
}

module _ (tasks : TaskDb) (user : UserInfo) (lower : List ℕ → List ℕ) (lib : Shapely)
    (now : Datetime) where
  perform-Projects :
      (op : Operation) (db : Db)
      → IsAllowed tasks user db op
      → is_workspace_lead user (workspace_id_of op) ≡ false
      → (perform lower lib user now op db).projects ≡ db.projects
  unfolding perform
  perform-Projects (to_lock t) db may plain =
      after-Projects _ db
        (lock_task-Projects _ lib now t.workspace_id t.project_id t.task_number user)
  perform-Projects (to_extend t) db may plain =
      after-Projects _ db
        (extend_lock-Projects _ lib now t.workspace_id t.project_id t.task_number user)
  perform-Projects (to_unlock t force) db may plain =
      after-Projects _ db
        (unlock_task-Projects _ lib now t.workspace_id t.project_id t.task_number user force)
  perform-Projects (to_submit t body) db may plain =
      after-Projects _ db
        (submit-Projects _ lib now t.workspace_id t.project_id t.task_number user body)
  perform-Projects (to_submit_changeset t changeset) db may plain =
      after-Projects _ db (
        submit_changeset-Projects _ lib now t.workspace_id t.project_id t.task_number user
          changeset)
  perform-Projects (to_add_role p u role members) db may plain =
      after-Projects _ db (add_role-Projects _ p.workspace_id p.project_id u now role members)
  perform-Projects (to_update_role p u role) db may plain =
      after-Projects _ db (update_role-Projects _ p.workspace_id p.project_id u now role)
  perform-Projects (to_upsert_role p u role) db may plain =
      after-Projects _ db (upsert_role-Projects _ p.workspace_id p.project_id u now role)
  perform-Projects (to_remove_role p u) db may plain =
      after-Projects _ db (remove_role-Projects _ p.workspace_id p.project_id u)
  perform-Projects (to_reset_task t) db may plain = absurd (cc (may.1, plain))
  perform-Projects (to_save p body key) db may plain = absurd (cc (may.1, plain))
  perform-Projects (to_create w body members) db may plain = absurd (cc (may.1, plain))
  perform-Projects (to_patch p body) db may plain = absurd (cc (may.1, plain))
  perform-Projects (to_upload_aoi p aoi) db may plain = absurd (cc (may.1, plain))
  perform-Projects (to_delete_aoi p) db may plain = absurd (cc (may.1, plain))
  perform-Projects (to_delete p) db may plain = absurd (cc (may.1, plain))
  perform-Projects (to_activate p) db may plain = absurd (cc (may.1, plain))
  perform-Projects (to_close p) db may plain = absurd (cc (may.1, plain))
  perform-Projects (to_reset p) db may plain = absurd (cc (may.1, plain))

  -- Only a LEAD of the workspace changes projects: a request through any of the writing endpoints,
  -- by a caller who is not a LEAD of the workspace that it names, leaves every row of the projects
  -- as it was and adds none, whether it succeeds or not and whatever the role of the caller on the
  -- project.
  pub serve-Projects :
      (op : Operation) (db : Db)
      → is_workspace_lead user (workspace_id_of op) ≡ false
      → (serve tasks user lower lib now op db).projects ≡ db.projects
  serve-Projects op db plain = elim (serve-IsAllowed tasks user lower lib now op db) [
    | inl same ↦ ap (λ (d : Db). d.projects) same
    | inr (may, same) ↦ ap (λ (d : Db). d.projects) same ∙ perform-Projects op db may plain
  ]
