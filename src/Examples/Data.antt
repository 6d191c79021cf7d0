-- ===== src/Examples/Data.antt =====
-- A workspace with three users, one open project and one task that waits for review.

use workspaces_backend.Base.{map, ℕ, true, List, [], ◌∷◌, none, some, ◌+◌, leb, ltb, ◌==◌}
use workspaces_backend.Security.UserInfo.{UserInfo}
use workspaces_backend.Tasking.Schema.{
  Db, TaskingProject, TaskingTask, TaskingLock, TaskingProjectRole, User, Uuid, to_map, to_review,
  open_, draft, grid, lead, validator, contributor, RoleType, completed,
}
use workspaces_backend.Tasking.Dtos.{TaskBoundaryFeature}
use workspaces_backend.Tasking.Geometry.{Shapely, Shape, polygon, multi_polygon, other_shape}
use workspaces_backend.Tasking.Service.{TaskPath, ProjectPath}

-- Shapes on a line: the polygon `n` is the segment from 0 to `n`, and areas are lengths.
abbrev size : Shape → ℕ
size (polygon n) = n
size (multi_polygon []) = 0
size (multi_polygon (n ∷ _)) = n
size (other_shape _) = 0

abbrev pub segments : Shapely
segments = record {
  to_shape = λ n. polygon n;
  from_shape = size;
  shape = λ n. some (polygon n);
  is_valid = λ g. ltb 0 (size g);
  covers = λ a b. leb (size b) (size a);
  area = size;
  difference = λ a b. polygon 1;
  is_zero = λ n. n == 0;
  float_le = leb;
  float_gt = λ a b. ltb b a;
  float_mul = λ a b. a;
  round_4 = λ n. n;
  aoi_cover_rel_tolerance = 0;
  deg_2_to_km_2 = 1;
  grid_max_km_2 = 50;
  body_hash = λ _ gs. sum (map (λ (f : TaskBoundaryFeature). f.geometry) gs);
}
  where
    sum : List ℕ → ℕ
    sum [] = 0
    sum (g ∷ gs) = g + sum gs

-- A feature without properties.
abbrev pub feature : ℕ → TaskBoundaryFeature
feature g = record { geometry = g; properties = none }

-- A comparison of names that keeps upper and lower case apart.
abbrev pub exact : List ℕ → List ℕ
exact name = name

abbrev user : Uuid → UserInfo
user id = record {
  credentials = 0;
  user_uuid = id;
  user_name = "somebody";
  token_jti = 0;
  osm_workspace_roles = [];
  accessible_workspace_ids = (1, 1 ∷ []) ∷ [];
  project_groups = [];
}

-- The mapper, the reviewer and the LEAD.
abbrev pub mary : UserInfo
mary = user 7

abbrev pub rosa : UserInfo
rosa = user 8

abbrev pub lena : UserInfo
lena = user 9

abbrev row : Uuid → User
row id = record { auth_uid = id; email = none; display_name = some "somebody" }

abbrev pub project : TaskingProject
project = record {
  id = 1;
  workspace_id = 1;
  name = 97 ∷ [];
  instructions = none;
  status = open_;
  review_required = true;
  lock_timeout_hours = 8;
  task_boundary_type = some grid;
  aoi = some 60;
  created_by = 9;
  created_by_name = some "somebody";
  created_at = 1;
  updated_at = 1;
  deleted_at = none;
  custom_imagery = none;
  description = none;
}

abbrev pub task : TaskingTask
task = record {
  id = 1;
  project_id = 1;
  task_number = 1;
  area_sqkm = 5;
  status = to_review;
  last_mapper_id = some 7;
  geometry = 5;
  created_at = 1;
  updated_at = 2;
}

abbrev pub rosas_lock : TaskingLock
rosas_lock = record {
  id = 2;
  task_id = 1;
  project_id = 1;
  user_auth_uid = 8;
  task_status_at_lock = to_review;
  locked_at = 3;
  expires_at = 30;
  released_at = none;
  release_reason = none;
}

abbrev pub role : Uuid → RoleType → TaskingProjectRole
role id r = record { project_id = 1; user_auth_uid = id; role = r; updated_at = 1 }

abbrev pub db : Db
db = record {
  projects = project ∷ [];
  project_roles = role 9 lead ∷ role 8 validator ∷ role 7 contributor ∷ [];
  tasks = task ∷ [];
  locks = rosas_lock ∷ [];
  changesets = [];
  feedback = [];
  audit_events = [];
  users = row 7 ∷ row 8 ∷ row 9 ∷ [];
  saves = [];
  next_project_id = 2;
  next_task_id = 2;
  next_lock_id = 3;
  next_changeset_id = 1;
}

-- The same workspace before its tasks were saved, and when all its work is over.
abbrev pub draft_db : Db
draft_db = record db {
  projects = record project { status = draft; task_boundary_type = none } ∷ [];
  tasks = [];
  locks = [];
}

abbrev pub unstarted_db : Db
unstarted_db = record db {
  projects = record project { status = draft } ∷ [];
  tasks = record task { status = to_map; last_mapper_id = none } ∷ [];
  locks = [];
}

abbrev pub finished_db : Db
finished_db = record db { tasks = record task { status = completed } ∷ []; locks = [] }

abbrev pub task_path : TaskPath
task_path = record { workspace_id = 1; project_id = 1; task_number = 1 }

abbrev pub project_path : ProjectPath
project_path = record { workspace_id = 1; project_id = 1 }
