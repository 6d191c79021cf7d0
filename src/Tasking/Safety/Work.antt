-- ===== src/Tasking/Safety/Work.antt =====
-- Releasing, extending, resetting and submitting against the invariant
-- (api/src/tasking/tasks/repository.py).
use workspaces_backend.Base.{ℕ, ◌≡◌, refl, Bool, Option, none, some, All-map, arith}
use workspaces_backend.Core.{
  ok, Session, bind_query, bind_raise_if, bind_execute, bind_commit, end_query, end_commit, Ends,
}
use workspaces_backend.Security.UserInfo.{UserInfo}
use workspaces_backend.Tasking.Schema.{
  Db, TaskingTask, TaskingLock, TaskStatus, to_map, to_review, to_remap, completed, Datetime,
}
use workspaces_backend.Tasking.Geometry.{Shapely}
use workspaces_backend.Tasking.Tasks.Queries.{get_active_lock, audit, release_lock}
use workspaces_backend.Tasking.Tasks.Locks.{
  unlock_task, extend_lock, reset_lock, reset_status, reset_task,
}
use workspaces_backend.Tasking.Invariant.{Inv}
use workspaces_backend.Tasking.Safety.Reads.{
  IsKept, FoundTask, get_task-Found, get_active_lock-free, get_active_lock-only,
}
use workspaces_backend.Tasking.Safety.Writes.{
  found_mapped, IsFree, release_lock-Inv, set_expiry-Inv, update_task-Inv, release_lock-IsFree,
}

reset_lock-Inv :
    (task : TaskingTask) (i user now : ℕ) (held : Option TaskingLock) (db : Db)
    → Inv db
    → Inv (reset_lock task i user now held db)
unfolding reset_lock audit
reset_lock-Inv task i user now none db v = v
reset_lock-Inv task i user now (some l) db v = release_lock-Inv l.id now _ db v

pub reset_lock-IsFree :
    (task : TaskingTask) (i user now : ℕ) (held : Option TaskingLock) (db : Db)
    → get_active_lock task.id db ≡ ok held
    → IsFree task.id (reset_lock task i user now held db)
unfolding reset_lock audit
reset_lock-IsFree task i user now none db h = get_active_lock-free task.id db none h refl
reset_lock-IsFree task i user now (some l) db h =
    release_lock-IsFree task.id l now _ db (get_active_lock-only task.id db l h)

reset_lock-Found :
    (task : TaskingTask) (p user now : ℕ) (held : Option TaskingLock) (db : Db)
    → FoundTask db p task
    → FoundTask (reset_lock task p user now held db) p task
unfolding reset_lock audit release_lock
reset_lock-Found task p user now none db f = f
reset_lock-Found task p user now (some l) db f = record {
  in_project = f.in_project;
  only = f.only;
  below = f.below;
  mapped = f.mapped;
}

reset_status-Inv :
    (task : TaskingTask) (p i user now : ℕ) (previous : TaskStatus) (db : Db)
    → Inv db
    → IsFree task.id db
    → FoundTask db p task
    → task.status ≡ previous
    → Inv (reset_status task i user now previous db)
unfolding reset_status audit
reset_status-Inv task p i user now to_map db v free f e =
    update_task-Inv task.id (λ t. record t { last_mapper_id = none; updated_at = now }) db v free
      (λ t. refl)
      (found_mapped p db task (λ t. record t { last_mapper_id = none; updated_at = now }) f
        (ground arith))
reset_status-Inv task p i user now to_review db v free f e =
    update_task-Inv task.id _ db v free (λ t. refl) (All-map _ _ (λ t _ e. refl) db.tasks v.mappers)
reset_status-Inv task p i user now to_remap db v free f e =
    update_task-Inv task.id _ db v free (λ t. refl) (All-map _ _ (λ t _ e. refl) db.tasks v.mappers)
reset_status-Inv task p i user now completed db v free f e =
    update_task-Inv task.id _ db v free (λ t. refl) (All-map _ _ (λ t _ e. refl) db.tasks v.mappers)

reset-Inv :
    (task : TaskingTask) (p user now : ℕ) (held : Option TaskingLock) (db : Db)
    → Inv db
    → FoundTask db p task
    → get_active_lock task.id db ≡ ok held
    → Inv (reset_status task p user now task.status (reset_lock task p user now held db))
reset-Inv task p user now held db v f h =
    reset_status-Inv task p p user now task.status _ (reset_lock-Inv task p user now held db v)
      (reset_lock-IsFree task p user now held db h) (reset_lock-Found task p user now held db f)
      refl

module _ (lib : Shapely) (now : Datetime) (w i n : ℕ) (user : UserInfo) where
  pub unlock_task-IsKept :
      (force : Bool) (s : Session Db)
      → Inv s.working
      → Inv s.committed
      → Ends IsKept (unlock_task now w i n user force) s
  unfolding unlock_task audit
  unlock_task-IsKept force s v c =
      bind_query _ _
        (λ _ _.
          bind_query _ _
            (λ task _.
              bind_query _ _
                (λ held _.
                  bind_query _ _
                    (λ l _.
                      bind_query _ _
                        (λ reason _. bind_execute _ _ (
                          bind_execute _ _
                            (end_commit (release_lock-Inv l.id now reason s.working v))))
                        (λ e. c))
                    (λ e. c))
                (λ e. c))
            (λ e. c))
        (λ e. c)

  pub extend_lock-IsKept :
      (s : Session Db)
      → Inv s.working
      → Inv s.committed
      → Ends IsKept (extend_lock lib w i n user) s
  unfolding extend_lock audit
  extend_lock-IsKept s v c =
      bind_query _ _
        (λ project _.
          bind_query _ _
            (λ task _.
              bind_query _ _
                (λ held _.
                  bind_query _ _
                    (λ l _.
                      bind_raise_if _ _ _
                        (λ _. bind_execute _ _ (
                          bind_execute _ _
                            (bind_commit _ (end_query _ (λ _. set_expiry-Inv l.id _ s.working v)))))
                        c)
                    (λ e. c))
                (λ e. c))
            (λ e. c))
        (λ e. c)

  pub reset_task-IsKept :
      (s : Session Db)
      → Inv s.working
      → Inv s.committed
      → Ends IsKept (reset_task lib now w i n user) s
  unfolding reset_task audit
  reset_task-IsKept s v c =
      bind_query _ _
        (λ project _.
          bind_raise_if _ _ _
            (λ _.
              bind_query _ _
                (λ task ht.
                  bind_query _ _
                    (λ held hh.
                      let after =
                        reset-Inv task i user.user_uuid now held s.working v
                          (get_task-Found i n s.working task v ht) hh in
                      bind_execute _ _ (
                        bind_execute _ _ (
                          bind_execute _ _ (
                            bind_commit _
                              (bind_query _ _ (λ _ _. end_query _ (λ _. after)) (λ e. after))))))
                    (λ e. c))
                (λ e. c))
            c)
        (λ e. c)
