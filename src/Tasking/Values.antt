-- ===== src/Tasking/Values.antt =====
-- The enumerations of api/src/tasking/*/schemas.py and api/src/users/schemas.py, and the scalar
-- types of the columns. UUIDs and instants are numbers: the first are only compared, the second
-- count seconds. A geometry column holds WKB, which the code only hands to shapely; a number
-- stands for it.
use workspaces_backend.Base.{ℕ, ◌*◌, Bool, true, false}

abbrev pub Uuid : Type 0
Uuid = ℕ

abbrev pub Datetime : Type 0
Datetime = ℕ

abbrev pub Wkb : Type 0
Wkb = ℕ

-- `timedelta(hours=h)`
abbrev pub hours : ℕ → ℕ
hours h = h * 3600

pub data TaskStatus : Type 0 where
  to_map to_review to_remap completed : TaskStatus

abbrev pub status_eq : TaskStatus → TaskStatus → Bool
status_eq to_map to_map = true
status_eq to_review to_review = true
status_eq to_remap to_remap = true
status_eq completed completed = true
status_eq _ _ = false

pub data LockReleaseReason : Type 0 where
  auto_unlock manual lead_release stale_timeout reset : LockReleaseReason

pub data FeedbackReason : Type 0 where
  incomplete_mapping data_quality_issue wrong_area other : FeedbackReason

pub data ProjectStatus : Type 0 where
  draft open_ done : ProjectStatus

abbrev pub is_draft : ProjectStatus → Bool
is_draft draft = true
is_draft _ = false

abbrev pub is_open : ProjectStatus → Bool
is_open open_ = true
is_open _ = false

abbrev pub is_done : ProjectStatus → Bool
is_done done = true
is_done _ = false

pub data TaskBoundaryType : Type 0 where
  grid import : TaskBoundaryType

-- `ProjectRoleType` and `WorkspaceUserRoleType` have the same members.
pub data RoleType : Type 0 where
  lead validator contributor : RoleType

abbrev pub is_lead : RoleType → Bool
is_lead lead = true
is_lead _ = false
