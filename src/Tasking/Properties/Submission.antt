-- ===== src/Tasking/Properties/Submission.antt =====
-- What submitting a task does: `submit` of api/src/tasking/tasks/repository.py.
use workspaces_backend.Base.{
  ℕ, ◌≡◌, refl, ap, ◌∙◌, [], ◌∷◌, Option, some, filter, ◌==◌, ==_refl, update_where,
  filter-update_where,
}
use workspaces_backend.Core.{ok, scalar_one_or_raise-eq-ok, scalar_one_or_raise}
use workspaces_backend.Security.UserInfo.{UserInfo}
use workspaces_backend.Tasking.Schema.{
  Db, TaskingTask, TaskingLock, TaskStatus, Datetime, Uuid, auto_unlock, task_unlocked,
  release_details,
}
use workspaces_backend.Tasking.Tasks.Queries.{get_task, is_task, audit, release_lock, update_task}
use workspaces_backend.Tasking.Tasks.Submit.{ActorRole, new_last_mapper, audit_change}
use workspaces_backend.Tasking.Service.{after}
use workspaces_backend.Tasking.Safety.Writes.{IsFree}

-- Nobody holds the task any more, and its row has the status and the last mapper.
abbrev pub IsMoved : ℕ → ℕ → TaskingTask → Db → Type 0
IsMoved p n after db = (get_task p n db ≡ ok after) × IsFree after.id db

abbrev pub moved_task : TaskingTask → TaskStatus → Option Uuid → Datetime → TaskingTask
moved_task task st mapper_id now = record task {
  status = st;
  last_mapper_id = mapper_id;
  updated_at = now;
}

-- The row that the SELECT finds after the UPDATE.
pub update_task-get_task :
    (p n : ℕ) (db : Db) (task : TaskingTask) (f : TaskingTask → TaskingTask)
    → ((t : TaskingTask) → is_task p n (f t) ≡ is_task p n t)
    → get_task p n db ≡ ok task
    → get_task p n (update_task task.id f db) ≡ ok (f task)
unfolding get_task update_task
update_task-get_task p n db task f same h =
    let one = scalar_one_or_raise-eq-ok _ (filter (is_task p n) db.tasks) task h in
    let hit : filter (is_task p n) (update_where (λ t. t.id == task.id) f db.tasks) ≡ f task ∷ [] =
      filter-update_where (is_task p n) (λ t. t.id == task.id) f same db.tasks
      ∙ ap (update_where (λ t. t.id == task.id) f) one
      ∙ rw (==_refl task.id) refl in
    ap (scalar_one_or_raise _) hit

IsFree-locks : (k : ℕ) (a b : Db) → a.locks ≡ b.locks → IsFree k b → IsFree k a
IsFree-locks k a b e h = rw e h

module _ (p n user now : ℕ) (task : TaskingTask) (l : TaskingLock) (st : TaskStatus)
    (actor : ActorRole) where
  abbrev finish_row : TaskingTask → TaskingTask
  finish_row t = record t {
    status = st;
    last_mapper_id = new_last_mapper actor user task;
    updated_at = now;
  }

  abbrev finish_tables : Db → Db
  finish_tables db = audit_change task p user st (
      update_task task.id finish_row (
        audit task_unlocked p (some task.id) user (release_details task.task_number auto_unlock)
          (release_lock l.id now auto_unlock db)))
