-- ===== src/Tasking/Schema.antt =====
-- The rows of api/src/tasking/*/schemas.py and of the migration that creates the tables
-- (alembic_osm/versions/a1b2c3d4e5f6_tasking_mvp_schema.py). Names are lists of code points.
use Prim.Native.String.{String}
use workspaces_backend.Base.{ℕ, Bool, Option, List}
use workspaces_backend.Tasking.Dtos.{SaveTasksResponse}
pub use workspaces_backend.Tasking.Values.{
  Uuid, Datetime, Wkb, hours, status_eq, is_draft, is_open, is_done, is_lead, TaskStatus, to_map,
  to_review, to_remap, completed, LockReleaseReason, auto_unlock, manual, lead_release,
  stale_timeout, reset, FeedbackReason, incomplete_mapping, data_quality_issue, wrong_area, other,
  ProjectStatus, draft, open_, done, TaskBoundaryType, grid, import, RoleType, lead, validator,
  contributor,
}

pub record TaskingTask : Type 0 where
  pub id : ℕ
  pub project_id : ℕ
  pub task_number : ℕ
  pub area_sqkm : ℕ
  pub status : TaskStatus
  pub last_mapper_id : Option Uuid
  pub geometry : Wkb
  pub created_at : Datetime
  pub updated_at : Datetime

pub record TaskingLock : Type 0 where
  pub id : ℕ
  pub task_id : ℕ
  pub project_id : ℕ
  pub user_auth_uid : Uuid
  pub task_status_at_lock : TaskStatus
  pub locked_at : Datetime
  pub expires_at : Datetime
  pub released_at : Option Datetime
  pub release_reason : Option LockReleaseReason

pub record TaskingChangeset : Type 0 where
  pub id : ℕ
  pub task_id : ℕ
  pub project_id : ℕ
  pub lock_id : ℕ
  pub user_auth_uid : Uuid
  pub osm_changeset_id : ℕ
  pub submitted_at : Datetime

pub record TaskingFeedback : Type 0 where
  pub task_id : ℕ
  pub project_id : ℕ
  pub author_user_auth_uid : Uuid
  pub reason_category : Option FeedbackReason
  pub notes : String
  pub created_at : Datetime

pub record TaskingProject : Type 0 where
  pub id : ℕ
  pub workspace_id : ℕ
  pub name : List ℕ
  pub instructions : Option String
  pub status : ProjectStatus
  pub review_required : Bool
  pub lock_timeout_hours : ℕ
  pub task_boundary_type : Option TaskBoundaryType
  pub aoi : Option Wkb
  pub created_by : Uuid
  pub created_by_name : Option String
  pub created_at : Datetime
  pub updated_at : Datetime
  pub deleted_at : Option Datetime
  pub custom_imagery : Option String
  pub description : Option String

pub record TaskingProjectRole : Type 0 where
  pub project_id : ℕ
  pub user_auth_uid : Uuid
  pub role : RoleType
  pub updated_at : Datetime

-- The columns of `users` that the tasking code reads or writes.
pub record User : Type 0 where
  pub auth_uid : Uuid
  pub email : Option String
  pub display_name : Option String

pub data AuditEventType : Type 0 where
  project_created project_activated project_closed project_edited project_deleted : AuditEventType
  project_reset aoi_uploaded aoi_deleted tasks_created task_state_changed : AuditEventType
  task_locked task_lock_extended task_lock_renewed task_unlocked task_reset : AuditEventType
  changeset_submitted feedback_submitted : AuditEventType

-- The `details` dictionaries that the repositories write, one constructor for each set of keys.
pub data Details : Type 0 where
  no_details : Details
  task_details : ℕ → Details
  release_details : ℕ → LockReleaseReason → Details
  change_details : ℕ → TaskStatus → TaskStatus → Details
  expiry_details : ℕ → Datetime → Details
  changeset_details : ℕ → ℕ → Details
  feedback_details : ℕ → FeedbackReason → Details
  created_details : ℕ → TaskBoundaryType → Details
  name_details : List ℕ → Details
  fields_details : List String → Details

-- `id` and `occurred_at` are filled in by the database and read by nothing modelled here.
pub record TaskingAuditEvent : Type 0 where
  pub event_type : AuditEventType
  pub project_id : ℕ
  pub task_id : Option ℕ
  pub actor_user_auth_uid : Uuid
  pub details : Details
  pub project_deleted : Bool

-- A row of `tasking_task_save_idempotency`.
pub record SaveRecord : Type 0 where
  pub project_id : ℕ
  pub key : String
  pub body_hash : ℕ
  pub response : SaveTasksResponse

-- The OSM database, as far as the tasking code goes, with the next value of each id sequence.
pub record Db : Type 0 where
  pub projects : List TaskingProject
  pub project_roles : List TaskingProjectRole
  pub tasks : List TaskingTask
  pub locks : List TaskingLock
  pub changesets : List TaskingChangeset
  pub feedback : List TaskingFeedback
  pub audit_events : List TaskingAuditEvent
  pub users : List User
  pub saves : List SaveRecord
  pub next_project_id : ℕ
  pub next_task_id : ℕ
  pub next_lock_id : ℕ
  pub next_changeset_id : ℕ
