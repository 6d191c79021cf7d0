-- ===== src/Tasking/Properties/Resetting.antt =====
-- Starting over: `reset_task` of api/src/tasking/tasks/repository.py and `reset` of
-- api/src/tasking/projects/repository.py.
use workspaces_backend.Tasking.Safety.Work.{reset_lock-IsFree}
use workspaces_backend.Tasking.Safety.Writes.{IsFree, audit-IsFree}
use workspaces_backend.Tasking.Properties.Submission.{IsMoved, update_task-get_task}
use workspaces_backend.Tasking.Tasks.Locks.{reset_task, reset_lock, reset_status}
use workspaces_backend.Base.{
  ℕ, ◌≡◌, refl, sym, ◌∙◌, true, false, Option, none, some, arith, Bool-cases, inl, inr, All,
  All-update_where,
}
use workspaces_backend.Core.{
  ok, Ends, bind_query, bind_found, bind_pass, bind_execute, bind_commit, end_query, end_pure,
}
use workspaces_backend.Security.UserInfo.{UserInfo}
use workspaces_backend.Tasking.Schema.{
  Db, TaskingProject, TaskingTask, TaskingLock, TaskStatus, to_map, to_review, to_remap, completed,
  status_eq, Datetime, is_draft, Uuid, is_done, Details, task_state_changed, task_reset,
  task_details,
}
use workspaces_backend.Tasking.Geometry.{Shapely}
use workspaces_backend.Tasking.Tasks.Queries.{
  get_project, get_task, get_active_lock, audit, release_lock, update_task,
}
use workspaces_backend.Tasking.Projects.Lifecycle.{
  reset_project, release_all, rewind_tasks, reopen, is_begun_in,
}
use workspaces_backend.Tasking.Projects.Queries.{update_project}
use workspaces_backend.Tasking.Invariant.{Inv, has_mapper}
use workspaces_backend.Tasking.Service.{opened, after}
use workspaces_backend.Tasking.Safety.ProjectWrites.{IsIdle, release_all-IsIdle}
use workspaces_backend.Tasking.Properties.Lifecycle.{get_project-id}

-- Nobody works in the project, and each of its tasks is as it was made.
abbrev pub IsUnstarted : ℕ → Db → Type 0
IsUnstarted i db =
    IsIdle i db
    × All (λ t. t.project_id ≡ i → (t.status ≡ to_map) × (t.last_mapper_id ≡ none)) db.tasks

unmapped :
    (st : TaskStatus) (m : Option Uuid)
    → status_eq st to_map ≡ true
    → has_mapper st m ≡ true
    → (st ≡ to_map) × (m ≡ none)
unmapped to_map none e h = (refl, refl)
unmapped to_map (some u) e h = absurd (cc h)
unmapped to_review m e h = absurd (cc e)
unmapped to_remap m e h = absurd (cc e)
unmapped completed m e h = absurd (cc e)

rewind_tasks-IsUnstarted :
    (k now : ℕ) (db : Db)
    → Inv db
    → All
        (λ t. t.project_id ≡ k → (t.status ≡ to_map) × (t.last_mapper_id ≡ none))
        (rewind_tasks k now (release_all k now db)).tasks
unfolding rewind_tasks release_all
rewind_tasks-IsUnstarted k now db v =
    All-update_where (λ t. has_mapper t.status t.last_mapper_id ≡ true)
      (λ t. t.project_id ≡ k → (t.status ≡ to_map) × (t.last_mapper_id ≡ none)) (is_begun_in k)
      (λ t. record t { status = to_map; last_mapper_id = none; updated_at = now })
      (λ t h begun mine. (refl, refl))
      (λ t h idle mine. unmapped t.status t.last_mapper_id (ground (arith, idle, mine)) h) db.tasks
      v.mappers

reopen-IsUnstarted :
    (project : TaskingProject) (i now : ℕ) (db : Db)
    → IsUnstarted i db
    → IsUnstarted i (reopen project now db)
unfolding reopen update_project
reopen-IsUnstarted project i now db v = elim (Bool-cases (is_done project.status)) [
  | inl e ↦ rw e v
  | inr e ↦ rw e v
]

module _ (now : Datetime) (w i : ℕ) (user : UserInfo) where
  reset_project-Ends :
      (db : Db) (project : TaskingProject)
      → Inv db
      → get_project w i db ≡ ok project
      → is_draft project.status ≡ false
      → Ends (λ r. IsUnstarted i r.1.committed) (reset_project now w i user) (opened db)
  unfolding reset_project audit
  reset_project-Ends db project v hp begun =
      let same = get_project-id w i db project hp in
      let fresh : IsUnstarted i (rewind_tasks project.id now (release_all project.id now db)) = (
        rw (sym same) (unfold rewind_tasks in release_all-IsIdle project.id now db),
        rw (sym same) (rewind_tasks-IsUnstarted project.id now db v),
      ) in
      let reset_tables = reopen-IsUnstarted project i now _ fresh in
      bind_found _ _ hp (
        bind_pass _ _ _ begun (
          bind_execute _ _ (
            bind_execute _ _ (
              bind_execute _ _ (
                bind_execute _ _ (
                  bind_commit _ (
                    bind_query _ _
                      (λ _ _. bind_query _ _ (λ _ _. end_pure _ reset_tables) (λ e. reset_tables))
                      (λ e. reset_tables))))))))

  -- Resetting a project that has left draft always goes through to the tables: from sound tables,
  -- each task of the project ends up in `to_map` without a last mapper, and no active lock is left
  -- in the project.
  pub reset_project-IsUnstarted :
      (db : Db) (project : TaskingProject)
      → Inv db
      → get_project w i db ≡ ok project
      → is_draft project.status ≡ false
      → IsUnstarted i (after (reset_project now w i user) db)
  reset_project-IsUnstarted db project v hp begun = (reset_project-Ends db project v hp begun).at

reset_lock-get_task :
    (task : TaskingTask) (i n user now : ℕ) (held : Option TaskingLock) (db : Db)
    → get_task i n db ≡ ok task
    → get_task i n (reset_lock task i user now held db) ≡ ok task
unfolding reset_lock get_task audit release_lock
reset_lock-get_task task i n user now none db h = h
reset_lock-get_task task i n user now (some l) db h = h

back-IsMoved :
    (task : TaskingTask) (i n user now : ℕ) (d : Details) (db : Db)
    → get_task i n db ≡ ok task
    → IsFree task.id db
    → IsMoved i n
        (record task { status = to_map; last_mapper_id = none; updated_at = now })
        (audit task_state_changed i (some task.id) user d (
          update_task task.id
            (λ t. record t { status = to_map; last_mapper_id = none; updated_at = now })
            db))
back-IsMoved task i n user now d db h free =
    let after_update =
      update_task-get_task i n db task
        (λ t. record t { status = to_map; last_mapper_id = none; updated_at = now }) (λ t. refl)
        h in
    (unfold audit get_task in after_update, unfold audit update_task in free)

reset_status-IsMoved :
    (task : TaskingTask) (i n user now : ℕ) (st : TaskStatus) (db : Db)
    → get_task i n db ≡ ok task
    → IsFree task.id db
    → task.status ≡ st
    → IsMoved i n
        (record task { status = to_map; last_mapper_id = none; updated_at = now })
        (reset_status task i user now st db)
unfolding reset_status
reset_status-IsMoved task i n user now to_map db h free e = (
  update_task-get_task i n db task (λ t. record t { last_mapper_id = none; updated_at = now })
        (λ t. refl) h
      ∙ rw e refl,
  unfold update_task in free,
)
reset_status-IsMoved task i n user now to_review db h free e =
    back-IsMoved task i n user now _ db h free
reset_status-IsMoved task i n user now to_remap db h free e =
    back-IsMoved task i n user now _ db h free
reset_status-IsMoved task i n user now completed db h free e =
    back-IsMoved task i n user now _ db h free

module _ (lib : Shapely) (now : Datetime) (w i n : ℕ) (user : UserInfo) where
  reset_task-Ends :
      (db : Db) (project : TaskingProject) (task : TaskingTask) (held : Option TaskingLock)
      → get_project w i db ≡ ok project
      → is_draft project.status ≡ false
      → get_task i n db ≡ ok task
      → get_active_lock task.id db ≡ ok held
      → Ends
          (λ r.
            IsMoved i n
              (record task { status = to_map; last_mapper_id = none; updated_at = now })
              r.1.committed)
          (reset_task lib now w i n user)
          (opened db)
  unfolding reset_task
  reset_task-Ends db project task held hp begun ht hh =
      let back =
        reset_status-IsMoved task i n user.user_uuid now task.status
          (reset_lock task i user.user_uuid now held db)
          (reset_lock-get_task task i n user.user_uuid now held db ht)
          (reset_lock-IsFree task i user.user_uuid now held db hh) refl in
      let facts : IsMoved i n
          (record task { status = to_map; last_mapper_id = none; updated_at = now })
          (audit task_reset i (some task.id) user.user_uuid (task_details task.task_number) (
            reset_status task i user.user_uuid now task.status
              (reset_lock task i user.user_uuid now held db))) =
        (unfold audit get_task in back.0, audit-IsFree task.id _ _ _ _ _ _ back.1) in
      bind_found _ _ hp (
        bind_pass _ _ _ begun (
          bind_found _ _ ht (
            bind_found _ _ hh (
              bind_execute _ _ (
                bind_execute _ _ (
                  bind_execute _ _ (
                    bind_commit _
                      (bind_query _ _ (λ _ _. end_query _ (λ _. facts)) (λ e. facts)))))))))

  -- Resetting a task of a project that has left draft always goes through to the tables: the task
  -- is in `to_map` without a last mapper, and nobody holds it, whether it was held before or not.
  pub reset_task-IsMoved :
      (db : Db) (project : TaskingProject) (task : TaskingTask) (held : Option TaskingLock)
      → get_project w i db ≡ ok project
      → is_draft project.status ≡ false
      → get_task i n db ≡ ok task
      → get_active_lock task.id db ≡ ok held
      → IsMoved i n
          (record task { status = to_map; last_mapper_id = none; updated_at = now })
          (after (reset_task lib now w i n user) db)
  reset_task-IsMoved db project task held hp begun ht hh =
      (reset_task-Ends db project task held hp begun ht hh).at
