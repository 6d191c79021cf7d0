-- ===== src/Tasking/Tasks/Save.antt =====
-- Bulk saving and preview: `validate` and `save` of api/src/tasking/tasks/repository.py, with the
-- geometry helpers of that file.
use Prim.Native.String.{String}
use text.Mathlib.Text.{◌==◌ as str_eq}
use workspaces_backend.Base.{
  ℕ, ◌+◌, Bool, true, false, not, ◌&&◌, ◌||◌, List, [], ◌∷◌, ◌++◌, Option, none, some, any, filter,
  map, update_where, length, ◌==◌, if◌then◌else◌,
}
use workspaces_backend.Core.{
  Result, ok, err, http_exception, already_exists_exception, Action, ◌>>=◌, ◌>>◌, pure, raise_if,
  query, execute, commit,
}
use workspaces_backend.Security.UserInfo.{UserInfo}
use workspaces_backend.Tasking.Dtos.{TaskResponse, TaskBoundaryFeature, SaveTasksResponse}
use workspaces_backend.Tasking.Schema.{
  Db, TaskingProject, TaskingTask, SaveRecord, TaskBoundaryType, grid, import, to_map, is_draft,
  tasks_created, created_details, Datetime, Wkb,
}
use workspaces_backend.Tasking.Geometry.{Shape, polygon, multi_polygon, other_shape, Shapely}
use workspaces_backend.Tasking.Tasks.Queries.{get_project, audit}
use workspaces_backend.Tasking.Tasks.Response.{to_task_response}

pub record ValidateWarning : Type 0 where
  pub task_index : ℕ
  pub area_sqkm : ℕ

pub record SaveTasksRequest : Type 0 where
  pub source : TaskBoundaryType
  pub features : List TaskBoundaryFeature

abbrev pub geometries_of : SaveTasksRequest → List ℕ
geometries_of body = map (λ (f : TaskBoundaryFeature). f.geometry) body.features

-- `rs.first()`
abbrev pub first : {A : Type 0} → List A → Option A
first [] = none
first (x ∷ _) = some x

abbrev pub required_aoi : Option Wkb → String → Result Wkb
required_aoi none message = err (http_exception 422 message)
required_aoi (some aoi) message = ok aoi

module _ (lib : Shapely) where
  abbrev as_polygon : Option Shape → Result Shape
  as_polygon none = err (http_exception 422 "Invalid task geometry: {e}")
  as_polygon (some (polygon rings)) =
      if lib.is_valid (polygon rings)
      then ok (polygon rings)
      else err (http_exception 422 "Task polygon is not valid (self-intersection or invalid ring)")
  as_polygon (some _) = err (http_exception 422 "Each task feature must be a Polygon")

  -- `_polygon_to_shapely`
  unfoldable pub polygon_to_shapely : ℕ → Result Shape
  polygon_to_shapely geometry = as_polygon (lib.shape geometry)

  -- `_aoi_covers`
  unfoldable pub aoi_covers : Shape → Shape → Bool
  aoi_covers aoi poly =
      lib.covers aoi poly
      || lib.is_zero (lib.area poly)
      || lib.float_le (lib.area (lib.difference poly aoi))
          (lib.float_mul lib.aoi_cover_rel_tolerance (lib.area poly))

  -- `_polygon_area_km2`
  unfoldable pub polygon_area_km_2 : Shape → ℕ
  polygon_area_km_2 geom = lib.float_mul (lib.area geom) lib.deg_2_to_km_2

  -- `to_shape(project.aoi)`, with a Polygon made a MultiPolygon
  abbrev pub aoi_shape : Wkb → Shape
  aoi_shape aoi = elim (lib.to_shape aoi) [
    | polygon rings ↦ multi_polygon (rings ∷ [])
    | multi_polygon members ↦ multi_polygon members
    | other_shape g ↦ other_shape g
  ]

  -- One turn of the loops over the features: the polygon, inside the AOI.
  unfoldable pub task_polygon : Shape → ℕ → Result Shape
  task_polygon aoi geometry = elim (polygon_to_shapely geometry) [
    | err e ↦ err e
    | ok poly ↦
        if aoi_covers aoi poly
        then ok poly
        else err (http_exception 422 "Task feature {idx} is not fully inside the project AOI")
  ]

  -- the loop of `validate`, from feature number `idx`
  unfoldable pub warnings_from : Shape → ℕ → List ℕ → Result (List ValidateWarning)
  warnings_from aoi idx [] = ok []
  warnings_from aoi idx (geometry ∷ rest) =
      let later = warnings_from aoi (idx + 1) rest in
      elim (task_polygon aoi geometry) [
        | err e ↦ err e
        | ok poly ↦ elim later [
          | err e ↦ err e
          | ok ws ↦
              if lib.float_gt (polygon_area_km_2 poly) lib.grid_max_km_2
              then ok (
                  record { task_index = idx; area_sqkm = lib.round_4 (polygon_area_km_2 poly) }
                  ∷ ws)
              else ok ws
        ]
      ]

  unfoldable pub validate : ℕ → ℕ → List ℕ → Action Db (List ValidateWarning)
  validate workspace_id project_id geometries = do
    project ← query (get_project workspace_id project_id)
    raise_if (not (is_draft project.status))
        (http_exception 422 "Tasks can only be validated while the project is in draft")
    aoi ← query (λ _. required_aoi project.aoi "Project AOI is required before validating tasks")
    query (λ _. warnings_from (aoi_shape aoi) 0 geometries)

  -- the loop of `save`, from feature number `idx`, whose rows get the ids from `id` on
  unfoldable pub tasks_from : ℕ → Datetime → Shape → ℕ → ℕ → List ℕ → Result (List TaskingTask)
  tasks_from project_id now aoi idx id [] = ok []
  tasks_from project_id now aoi idx id (geometry ∷ rest) =
      let later = tasks_from project_id now aoi (idx + 1) (id + 1) rest in
      elim (task_polygon aoi geometry) [
        | err e ↦ err e
        | ok poly ↦ elim later [
          | err e ↦ err e
          | ok ts ↦ ok (
              record {
                id = id;
                project_id = project_id;
                task_number = idx + 1;
                area_sqkm = lib.round_4 (polygon_area_km_2 poly);
                status = to_map;
                last_mapper_id = none;
                geometry = lib.from_shape poly;
                created_at = now;
                updated_at = now;
              }
              ∷ ts)
        ]
      ]

  -- `[await self._to_task_response(t) for t in created]`
  unfoldable pub task_responses : List TaskingTask → Db → Result (List TaskResponse)
  task_responses [] db = ok []
  task_responses (t ∷ ts) db =
      let later = task_responses ts db in
      elim (to_task_response lib t db) [
        | err e ↦ err e
        | ok r ↦ elim later [ err e ↦ err e | ok rs ↦ ok (r ∷ rs) ]
      ]

-- `session.add(task)` for each, then `flush()`
unfoldable pub insert_tasks : List TaskingTask → Db → Db
insert_tasks created db = record db {
  tasks = db.tasks ++ created;
  next_task_id = db.next_task_id + length created;
}

-- the UPDATE of the project
unfoldable pub set_boundary_type : ℕ → TaskBoundaryType → Datetime → Db → Db
set_boundary_type project_id source now db = record db {
  projects =
      update_where (λ p. p.id == project_id)
        (λ p. record p { task_boundary_type = some source; updated_at = now }) db.projects;
}

-- The stored save for a key, if the request carries one; an empty header counts as none.
abbrev pub is_save : ℕ → String → SaveRecord → Bool
is_save project_id key r = r.project_id == project_id && str_eq r.key key

unfoldable pub stored_save : ℕ → Option String → Db → Option SaveRecord
stored_save project_id none db = none
stored_save project_id (some key) db =
    if str_eq key "" then none else first (filter (is_save project_id key) db.saves)

unfoldable pub store_save : ℕ → Option String → ℕ → SaveTasksResponse → Db → Db
store_save project_id none body_hash response db = db
store_save project_id (some key) body_hash response db = if str_eq key "" then db else record db {
  saves =
      db.saves
      ++ (record { project_id = project_id; key = key; body_hash = body_hash; response = response })
        ∷ [];
}

abbrev pub is_grid : TaskBoundaryType → Bool
is_grid grid = true
is_grid import = false

-- the replay path: a different body is refused
unfoldable pub replay : ℕ → SaveRecord → Result (SaveTasksResponse × Bool)
replay body_hash row =
    if row.body_hash == body_hash
    then ok (record row.response { replayed = true }, true)
    else err (already_exists_exception "Idempotency key reused with a different request")

module _ (lib : Shapely) (now : Datetime) where
  -- from the check on existing tasks to the commit
  unfoldable pub save_new :
      TaskingProject
      → Wkb
      → UserInfo
      → SaveTasksRequest
      → Option String
      → ℕ
      → Action Db (SaveTasksResponse × Bool)
  save_new project aoi user body key body_hash = do
    existing ← query (λ db. ok (any (λ t. t.project_id == project.id) db.tasks))
    raise_if existing (already_exists_exception "Tasks already saved")
    created ← query (λ db.
        tasks_from lib project.id now (aoi_shape lib aoi) 0 db.next_task_id (geometries_of body))
    execute (insert_tasks created)
    execute (set_boundary_type project.id body.source now)
    execute (
        audit tasks_created project.id none user.user_uuid
          (created_details (length created) body.source))
    responses ← query (task_responses lib created)
    let response : SaveTasksResponse = record {
      project_id = project.id;
      task_boundary_type = body.source;
      task_count = length created;
      tasks = responses;
      idempotency_key = key;
      replayed = false;
    }
    execute (store_save project.id key body_hash response)
    commit
    pure (response, false)

  unfoldable pub save :
      ℕ → ℕ → UserInfo → SaveTasksRequest → Option String → Action Db (SaveTasksResponse × Bool)
  save workspace_id project_id user body key = do
    project ← query (get_project workspace_id project_id)
    raise_if (not (is_draft project.status))
        (http_exception 422 "Tasks can only be saved while the project is in draft")
    aoi ← query (λ _. required_aoi project.aoi "Project AOI is required before saving tasks")
    let body_hash = lib.body_hash (is_grid body.source) body.features
    stored ← query (λ db. ok (stored_save project.id key db))
    elim stored [
      | some row ↦ query (λ _. replay body_hash row)
      | none ↦ save_new project aoi user body key body_hash
    ]
