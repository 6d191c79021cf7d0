-- ===== src/Tasking/Tasks/Response.antt =====
-- `_to_task_response` of api/src/tasking/tasks/repository.py and the DTOs that it builds.

use workspaces_backend.Base.{ℕ, ◌≡◌, ◌&&◌, List, [], ◌∷◌, Option, none, some, filter, ◌==◌}
use workspaces_backend.Core.{Result, ok, err, http_exception}
use workspaces_backend.Tasking.Schema.{Db, TaskingTask, TaskingLock, TaskingFeedback, Uuid}
use workspaces_backend.Tasking.Dtos.{
  TaskLockSummary, LastMapper, TaskFeedbackResponse, TaskResponse,
}
use workspaces_backend.Tasking.Geometry.{Shape, polygon, Shapely}
use workspaces_backend.Tasking.Tasks.Queries.{get_active_lock, lookup_user_display}

infixl 5 ◌>>=◌
abbrev ◌>>=◌ : {A B : Type 0} → Result A → (A → Result B) → Result B
ok a >>= f = f a
err e >>= f = err e

-- The first `if`: the coordinates of a polygon, or a 500.
unfoldable pub polygon_of : Shape → Result ℕ
polygon_of (polygon rings) = ok rings
polygon_of _ = err (http_exception 500 "Task geometry missing or non-Polygon")

unfoldable pub lock_summary : Option TaskingLock → Db → Result (Option TaskLockSummary)
lock_summary none db = ok none
lock_summary (some l) db = do
  display ← lookup_user_display (some l.user_auth_uid) db
  ok (
      some (record {
        user_id = l.user_auth_uid;
        user_name = display;
        locked_at = l.locked_at;
        expires_at = l.expires_at;
      }))

unfoldable pub last_mapper : Option Uuid → Db → Result (Option LastMapper)
last_mapper none db = ok none
last_mapper (some uid) db = do
  display ← lookup_user_display (some uid) db
  ok (some (record { user_id = uid; user_name = display }))

-- the loop over the task's feedback rows
unfoldable pub feedback_responses : List TaskingFeedback → Db → Result (List TaskFeedbackResponse)
feedback_responses [] db = ok []
feedback_responses (f ∷ fs) db = do
  display ← lookup_user_display (some f.author_user_auth_uid) db
  rest ← feedback_responses fs db
  ok (
      record {
        reason_category = f.reason_category;
        notes = f.notes;
        created_at = f.created_at;
        created_by_user_id = f.author_user_auth_uid;
        created_by_user_name = display;
      }
      ∷ rest)

unfoldable pub to_task_response : Shapely → TaskingTask → Db → Result TaskResponse
to_task_response lib task db = do
  rings ← polygon_of (lib.to_shape task.geometry)
  lock_row ← get_active_lock task.id db
  summary ← lock_summary lock_row db
  mapper ← last_mapper task.last_mapper_id db
  feedback ←
      feedback_responses
        (filter (λ f. f.task_id == task.id && f.project_id == task.project_id) db.feedback) db
  ok (record {
    id = task.id;
    task_number = task.task_number;
    status = task.status;
    geometry = rings;
    area_sqkm = task.area_sqkm;
    lock = summary;
    last_mapper = mapper;
    feedback = feedback;
    created_at = task.created_at;
    updated_at = task.updated_at;
  })

bind-ok :
    {A B : Type 0} (P : B → Type 0) (m : Result A) (k : A → Result B) (b : B)
    → (m >>= k) ≡ ok b
    → ((a : A) → k a ≡ ok b → P b)
    → P b
bind-ok P (ok a) k b h then_ = then_ a h
bind-ok P (err e) k b h then_ = absurd (cc h)

-- A response has the number of its task.
pub to_task_response-number :
    (lib : Shapely) (t : TaskingTask) (db : Db) (r : TaskResponse)
    → to_task_response lib t db ≡ ok r
    → r.task_number ≡ t.task_number
unfolding to_task_response
to_task_response-number lib t db r h =
    bind-ok Same (polygon_of (lib.to_shape t.geometry)) _ r h λ _ h1.
      bind-ok Same (get_active_lock t.id db) _ r h1 λ lock_row h2.
        bind-ok Same (lock_summary lock_row db) _ r h2 λ _ h3.
          bind-ok Same (last_mapper t.last_mapper_id db) _ r h3
            λ _ h4. bind-ok Same (feedback_responses _ db) _ r h4 λ _ h5. cc h5
  where
    Same : TaskResponse → Type 0
    Same x = x.task_number ≡ t.task_number
