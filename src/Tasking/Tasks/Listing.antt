-- ===== src/Tasking/Tasks/Listing.antt =====
-- `list_tasks` and `get_task` of api/src/tasking/tasks/repository.py.
use workspaces_backend.Base.{
  ℕ, ◌-◌, ◌*◌, ◌==◌, leb, if◌then◌else◌, Bool, true, false, ◌&&◌, List, [], ◌∷◌, length, filter,
  take, drop, Option, none, some,
}
use workspaces_backend.Core.{ok, Action, ◌>>=◌, ◌>>◌, pure, query}
use workspaces_backend.Tasking.Schema.{Db, TaskingTask, TaskStatus, status_eq, Uuid}
use workspaces_backend.Tasking.Dtos.{TaskResponse, TaskLockSummary}
use workspaces_backend.Tasking.Geometry.{Shapely}
use workspaces_backend.Tasking.Tasks.Queries.{get_project}
use workspaces_backend.Tasking.Tasks.Save.{task_responses}

pub record TaskFilter : Type 0 where
  pub status_filter : Option TaskStatus
  pub locked_by_user_id : Option Uuid
  pub last_mapper_id : Option Uuid

pub record TaskListResponse : Type 0 where
  pub tasks : List TaskResponse
  pub page : ℕ
  pub page_size : ℕ
  pub total : ℕ

abbrev pub has_status : Option TaskStatus → TaskingTask → Bool
has_status none t = true
has_status (some s) t = status_eq t.status s

abbrev pub is_mapped_by : Option Uuid → Option Uuid → Bool
is_mapped_by none mapper = true
is_mapped_by (some u) none = false
is_mapped_by (some u) (some v) = v == u

-- `where`
abbrev pub is_listed : ℕ → TaskFilter → TaskingTask → Bool
is_listed project_id f t =
    t.project_id == project_id
    && has_status f.status_filter t
    && is_mapped_by f.last_mapper_id t.last_mapper_id

-- `ORDER BY task_number ASC`
abbrev pub insert_by_number : TaskingTask → List TaskingTask → List TaskingTask
insert_by_number t [] = t ∷ []
insert_by_number t (u ∷ us) =
    if leb t.task_number u.task_number then t ∷ u ∷ us else u ∷ insert_by_number t us

abbrev pub order_by_number : List TaskingTask → List TaskingTask
order_by_number [] = []
order_by_number (t ∷ ts) = insert_by_number t (order_by_number ts)

unfoldable pub listed : ℕ → TaskFilter → Db → List TaskingTask
listed project_id f db = order_by_number (filter (is_listed project_id f) db.tasks)

-- `max(page, 1)` and `max(min(page_size, 1000), 1)`
abbrev pub at_least_one : ℕ → ℕ
at_least_one n = if n == 0 then 1 else n

abbrev pub clamped : ℕ → ℕ
clamped n = at_least_one (if leb n 1000 then n else 1000)

-- the second SELECT, with its LIMIT and OFFSET
unfoldable pub task_rows : ℕ → TaskFilter → ℕ → ℕ → Db → List TaskingTask
task_rows project_id f page page_size db =
    take (clamped page_size)
      (drop ((at_least_one page - 1) * clamped page_size) (listed project_id f db))

-- `locked_by_user_id is not None and (…)`
abbrev pub is_locked_by : Option Uuid → Option TaskLockSummary → Bool
is_locked_by none l = true
is_locked_by (some u) none = false
is_locked_by (some u) (some l) = l.user_id == u

unfoldable pub list_tasks : Shapely → ℕ → ℕ → TaskFilter → ℕ → ℕ → Action Db TaskListResponse
list_tasks lib workspace_id project_id f page page_size = do
  query (get_project workspace_id project_id)
  total ← query (λ db. ok (length (filter (is_listed project_id f) db.tasks)))
  tasks ← query (λ db. ok (task_rows project_id f page page_size db))
  responses ← query (task_responses lib tasks)
  pure (record {
    tasks = filter (λ tr. is_locked_by f.locked_by_user_id tr.lock) responses;
    page = at_least_one page;
    page_size = clamped page_size;
    total = total;
  })
