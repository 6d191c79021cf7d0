-- ===== src/Tasking/Dtos.antt =====
-- The responses of api/src/tasking/tasks/dtos.py.
use Prim.Native.String.{String}
use workspaces_backend.Base.{ℕ, Bool, List, Option}
use workspaces_backend.Tasking.Values.{TaskStatus, FeedbackReason, TaskBoundaryType, Uuid, Datetime}

pub record TaskLockSummary : Type 0 where
  pub user_id : Uuid
  pub user_name : Option String
  pub locked_at : Datetime
  pub expires_at : Datetime

pub record LastMapper : Type 0 where
  pub user_id : Uuid
  pub user_name : Option String

pub record TaskFeedbackResponse : Type 0 where
  pub reason_category : Option FeedbackReason
  pub notes : String
  pub created_at : Datetime
  pub created_by_user_id : Uuid
  pub created_by_user_name : Option String

pub record TaskResponse : Type 0 where
  pub id : ℕ
  pub task_number : ℕ
  pub status : TaskStatus
  pub geometry : ℕ
  pub area_sqkm : ℕ
  pub lock : Option TaskLockSummary
  pub last_mapper : Option LastMapper
  pub feedback : List TaskFeedbackResponse
  pub created_at : Datetime
  pub updated_at : Datetime

-- A GeoJSON feature; its properties are only hashed.
pub record TaskBoundaryFeature : Type 0 where
  pub geometry : ℕ
  pub properties : Option ℕ

pub record SaveTasksResponse : Type 0 where
  pub project_id : ℕ
  pub task_boundary_type : TaskBoundaryType
  pub task_count : ℕ
  pub tasks : List TaskResponse
  pub idempotency_key : Option String
  pub replayed : Bool
