-- ===== src/Tasking/Properties/Soundness.antt =====
-- The invariant of the tasking tables over whole histories of requests.
use workspaces_backend.Base.{ℕ, List, arith}
use workspaces_backend.Core.{Action, Ends, Keeps}
use workspaces_backend.Tasking.Schema.{Db}
use workspaces_backend.Tasking.Geometry.{Shapely}
use workspaces_backend.Tasking.Invariant.{Inv}
use workspaces_backend.Tasking.Service.{
  start, next, to_lock, to_extend, to_reset_task, to_unlock, to_submit, to_submit_changeset,
  to_save, to_create, to_patch, to_upload_aoi, to_delete_aoi, to_delete, to_activate, to_close,
  to_reset, to_add_role, to_update_role, to_upsert_role, to_remove_role, Operation, Request,
  Reachable, perform, opened, after, empty, to_lock, next, to_extend, to_reset_task, to_unlock,
  to_submit, to_submit_changeset, to_save, to_create, to_patch, to_upload_aoi, to_delete_aoi,
  to_delete, to_activate, to_close, to_reset, to_add_role, to_update_role, to_upsert_role,
  to_remove_role,
}
use workspaces_backend.Tasking.Safety.Reads.{IsKept}
use workspaces_backend.Tasking.Safety.Locks.{lock_task-IsKept}
use workspaces_backend.Tasking.Safety.Work.{
  unlock_task-IsKept, extend_lock-IsKept, reset_task-IsKept,
}
use workspaces_backend.Tasking.Safety.Submit.{submit-IsKept, submit_changeset-IsKept}
use workspaces_backend.Tasking.Safety.Projects.{
  soft_delete-IsKept, activate-IsKept, close-IsKept, reset_project-IsKept, upload_aoi-IsKept,
  delete_aoi-IsKept,
}
use workspaces_backend.Tasking.Safety.Edits.{create-Keeps, patch-Keeps}
use workspaces_backend.Tasking.Safety.Saves.{save-Keeps}
use workspaces_backend.Tasking.Safety.Roles.{
  add_role-Keeps, update_role-Keeps, upsert_role-Keeps, remove_role-Keeps,
}

abbrev kept :
    {A : Type 0} {m : Action Db A} {db : Db} → Ends IsKept m (opened db) → Inv (after m db)
kept e = e.at

kept_both : {A : Type 0} {m : Action Db A} {db : Db} → Keeps Inv m → Inv db → Inv (after m db)
kept_both {db} k v = (k.keeps (opened db) v v).at.1

-- Whatever the operation and however it ends, what it leaves committed is sound if the tables
-- were sound before: ids are unique, at most one active lock per task and per user and project,
-- each active lock agrees with its task and its project is open, and a task has a last mapper
-- exactly when it has left `to_map`.
pub perform-Inv :
    (lower : List ℕ → List ℕ) (lib : Shapely) (r : Request) (db : Db)
    → Inv db
    → Inv (perform lower lib r.user r.now r.operation db)
unfolding perform
perform-Inv lower lib r db v = go r.operation
  where
    go : (o : Operation) → Inv (perform lower lib r.user r.now o db)
    go (to_lock t) =
        kept (lock_task-IsKept lib r.now t.workspace_id t.project_id t.task_number r.user _ v v)
    go (to_extend t) =
        kept (extend_lock-IsKept lib r.now t.workspace_id t.project_id t.task_number r.user _ v v)
    go (to_reset_task t) =
        kept (reset_task-IsKept lib r.now t.workspace_id t.project_id t.task_number r.user _ v v)
    go (to_unlock t force) =
        kept (
          unlock_task-IsKept lib r.now t.workspace_id t.project_id t.task_number r.user force _ v v)
    go (to_submit t body) =
        kept (submit-IsKept lib r.now t.workspace_id t.project_id t.task_number r.user body _ v v)
    go (to_submit_changeset t c) =
        kept (
          submit_changeset-IsKept lib r.now t.workspace_id t.project_id t.task_number r.user c _ v
            v)
    go (to_save p body key) =
        kept_both (save-Keeps lib r.now p.workspace_id p.project_id r.user body key) v
    go (to_create w body members) = kept_both (create-Keeps lower r.now w r.user lib members body) v
    go (to_patch p body) =
        kept_both (patch-Keeps lower r.now p.workspace_id r.user p.project_id body) v
    go (to_upload_aoi p aoi) =
        kept (upload_aoi-IsKept r.now p.workspace_id p.project_id r.user lib aoi _ v v)
    go (to_delete_aoi p) = kept (delete_aoi-IsKept r.now p.workspace_id p.project_id r.user _ v v)
    go (to_delete p) = kept (soft_delete-IsKept r.now p.workspace_id p.project_id r.user _ v v)
    go (to_activate p) = kept (activate-IsKept r.now p.workspace_id p.project_id r.user _ v v)
    go (to_close p) = kept (close-IsKept r.now p.workspace_id p.project_id r.user _ v v)
    go (to_reset p) = kept (reset_project-IsKept r.now p.workspace_id p.project_id r.user _ v v)
    go (to_add_role p u role members) =
        kept_both (add_role-Keeps p.workspace_id p.project_id u r.now role members) v
    go (to_update_role p u role) =
        kept_both (update_role-Keeps p.workspace_id p.project_id u r.now role) v
    go (to_upsert_role p u role) =
        kept_both (upsert_role-Keeps p.workspace_id p.project_id u r.now role) v
    go (to_remove_role p u) = kept_both (remove_role-Keeps p.workspace_id p.project_id u) v

empty-Inv : Inv empty
empty-Inv = record {
  project_ids = tt;
  projects_below = tt;
  task_ids = tt;
  tasks_below = tt;
  mappers = tt;
  locks_below = tt;
  one_per_task = λ k. omega arith;
  one_per_user = λ k u. omega arith;
  agree = tt;
  opened = tt;
}

-- Every state of the tables that some sequence of requests leads to is sound, whichever
-- operations, users, times and bodies the requests have.
pub Reachable-Inv :
    (lower : List ℕ → List ℕ) (lib : Shapely) (db : Db) → Reachable lower lib db → Inv db
Reachable-Inv lower lib db start = empty-Inv
Reachable-Inv lower lib db (next old r h) =
    perform-Inv lower lib r old (Reachable-Inv lower lib old h)
