-- ===== src/Tasking/Invariant/State.antt =====
-- The invariant of the tasking tables.
use workspaces_backend.Base.{
  ℕ, ◌≤◌, ◌<◌, ◌≡◌, Bool, true, false, not, List, Option, none, is_some, holds, filter, length, All,
  Distinct,
}
use workspaces_backend.Tasking.Schema.{
  Db, TaskingProject, TaskingTask, TaskingLock, TaskStatus, to_map, to_review, to_remap, completed,
  open_, Uuid,
}
use workspaces_backend.Tasking.Tasks.Queries.{is_active, locks_task, locks_for_user}

-- Who may work on a task in a status: nobody once it is completed, and for a review anybody but
-- the user who last mapped it.
abbrev pub is_workable : TaskStatus → Option Uuid → Uuid → Bool
is_workable to_map mapper user = true
is_workable to_remap mapper user = true
is_workable to_review mapper user = not (holds mapper user)
is_workable completed mapper user = false

-- A task has a last mapper exactly when it has left `to_map`.
abbrev pub has_mapper : TaskStatus → Option Uuid → Bool
has_mapper to_map mapper = not (is_some mapper)
has_mapper _ mapper = is_some mapper

-- An active lock and the task that it names.
abbrev pub Agrees : TaskingLock → TaskingTask → Type 0
Agrees l t =
    is_active l ≡ true
    → l.task_id ≡ t.id
    → (t.project_id ≡ l.project_id)
      × (t.status ≡ l.task_status_at_lock)
      × (is_workable t.status t.last_mapper_id l.user_auth_uid ≡ true)

-- An active lock and the project that it names.
abbrev pub IsOpened : TaskingLock → TaskingProject → Type 0
IsOpened l p = is_active l ≡ true → l.project_id ≡ p.id → (p.status ≡ open_) × (p.deleted_at ≡ none)

abbrev pub project_key : TaskingProject → ℕ
project_key p = p.id

abbrev pub task_key : TaskingTask → ℕ
task_key t = t.id

abbrev pub IsFresh : ℕ → ℕ → TaskingLock → Type 0
IsFresh next_project next_task l = (l.project_id < next_project) × (l.task_id < next_task)

pub record IsSound (ps : List TaskingProject) (ts : List TaskingTask) (ls : List TaskingLock)
    (np nt : ℕ) : Type 0 where
  pub project_ids : Distinct project_key ps
  pub projects_below : All (λ p. p.id < np) ps
  pub task_ids : Distinct task_key ts
  pub tasks_below : All (λ t. t.id < nt) ts
  pub mappers : All (λ t. has_mapper t.status t.last_mapper_id ≡ true) ts
  pub locks_below : All (IsFresh np nt) ls
  pub one_per_task : (task_id : ℕ) → length (filter (locks_task task_id) ls) ≤ 1
  pub one_per_user :
      (project_id : ℕ) (user : Uuid) → length (filter (locks_for_user project_id user) ls) ≤ 1
  pub agree : All (λ l. All (Agrees l) ts) ls
  pub opened : All (λ l. All (IsOpened l) ps) ls

abbrev pub Inv : Db → Type 0
Inv db = IsSound db.projects db.tasks db.locks db.next_project_id db.next_task_id
