-- ===== src/Tasking/Projects/Edit.antt =====
-- `patch`, `upload_aoi` and `delete_aoi` of api/src/tasking/projects/repository.py, and the AOI
-- helpers that they use.
use Prim.Native.String.{String}
use mathlib.Core.Option
use workspaces_backend.Base.{
  ℕ, Bool, true, false, not, ◌&&◌, List, [], ◌∷◌, ◌++◌, Option, none, some, is_some, any,
  if◌then◌else◌, strip,
}
use workspaces_backend.Core.{
  Result, ok, err, http_exception, not_found_exception, integrity_error, Action, ◌>>=◌, ◌>>◌, pure,
  raise_if, query, execute, commit, rolling_back,
}
use workspaces_backend.Security.UserInfo.{UserInfo}
use workspaces_backend.Tasking.Schema.{
  Db, TaskingProject, is_draft, is_done, no_details, fields_details, project_edited, aoi_uploaded,
  aoi_deleted, Datetime, Wkb,
}
use workspaces_backend.Tasking.Geometry.{Shape, polygon, multi_polygon, other_shape, Shapely}
use workspaces_backend.Tasking.Tasks.Queries.{get_project, audit}
use workspaces_backend.Tasking.Projects.Queries.{
  ProjectResponse, to_response, task_count, refresh, update_project, delete_tasks, is_named,
  translate_integrity_error,
}

pub record ProjectUpdateRequest : Type 0 where
  pub name : Option (List ℕ)
  pub instructions : Option String
  pub lock_timeout_hours : Option ℕ
  pub review_required : Option Bool
  pub custom_imagery : Option String
  pub description : Option String

-- `updates[k] = v`, where the body has a `v`
abbrev pub updated {ℓ} : {A : Type ℓ} → Option A → A → A
updated none old = old
updated (some new) old = new

-- a column that can be NULL
abbrev pub updated_nullable {ℓ} : {A : Type ℓ} → Option A → Option A → Option A
updated_nullable none old = old
updated_nullable (some new) old = some new

abbrev pub key_of {ℓ} : {A : Type ℓ} → String → Option A → List String
key_of k none = []
key_of k (some _) = k ∷ []

-- the keys of `updates`, in the order of the `if`s
unfoldable pub updated_fields : ProjectUpdateRequest → List String
updated_fields body =
    key_of "name" body.name
    ++ (key_of "instructions" body.instructions
        ++ (key_of "lock_timeout_hours" body.lock_timeout_hours
            ++ (key_of "review_required" body.review_required
                ++ (key_of "custom_imagery" body.custom_imagery
                    ++ key_of "description" body.description))))

abbrev pub is_nil {ℓ} : {A : Type ℓ} → List A → Bool
is_nil [] = true
is_nil _ = false

unfoldable pub apply_updates : ProjectUpdateRequest → Datetime → TaskingProject → TaskingProject
apply_updates body now p = record p {
  name = updated (Option.map strip body.name) p.name;
  instructions = updated_nullable body.instructions p.instructions;
  lock_timeout_hours = updated body.lock_timeout_hours p.lock_timeout_hours;
  review_required = updated body.review_required p.review_required;
  custom_imagery = updated_nullable body.custom_imagery p.custom_imagery;
  description = updated_nullable body.description p.description;
  updated_at = now;
}

-- `body.review_required is not None and body.review_required != project.review_required`
abbrev pub changes_review : Option Bool → Bool → Bool
changes_review none old = false
changes_review (some true) old = not old
changes_review (some false) old = old

-- the UPDATE of `patch`, which the unique index on names can refuse
unfoldable pub save_updates :
    (List ℕ → List ℕ) → (TaskingProject → TaskingProject) → TaskingProject → Action Db (Unit {0})
save_updates lower change project s =
    if any (is_named lower (change project)) s.working.projects
    then (err (integrity_error "tasking_projects_workspace_name_unique"), s)
    else (ok tt, record s { working = update_project project.id change s.working })

unfoldable pub patch :
    (List ℕ → List ℕ)
    → Datetime
    → ℕ
    → ℕ
    → ProjectUpdateRequest
    → UserInfo
    → Action Db ProjectResponse
patch lower now workspace_id project_id body user = do
  project ← query (get_project workspace_id project_id)
  raise_if (is_done project.status) (http_exception 422 "A closed project cannot be edited")
  raise_if
      (not (is_draft project.status) && changes_review body.review_required project.review_required)
      (http_exception 422 "review_required is immutable after activation")
  latest ← if is_nil (updated_fields body) then pure project else do
    rolling_back translate_integrity_error do
      save_updates lower (apply_updates body now) project
      execute (
          audit project_edited project.id none user.user_uuid
            (fields_details (updated_fields body)))
      commit
    query (refresh project.id)
  count ← query (λ db. ok (task_count project.id db))
  pure (to_response latest count)

-- The four shapes of the request body; a feature collection has exactly one feature.
pub data AoiInput : Type 0 where
  polygon_input multi_polygon_input feature_input feature_collection_input : ℕ → AoiInput

abbrev geometry_of : AoiInput → ℕ
geometry_of (polygon_input g) = g
geometry_of (multi_polygon_input g) = g
geometry_of (feature_input g) = g
geometry_of (feature_collection_input g) = g

-- a Polygon becomes a MultiPolygon with one member
abbrev pub as_multi_polygon : Shape → Result Shape
as_multi_polygon (polygon rings) = ok (multi_polygon (rings ∷ []))
as_multi_polygon (multi_polygon members) = ok (multi_polygon members)
as_multi_polygon (other_shape g) = err (http_exception 422 "AOI must be a Polygon or MultiPolygon")

abbrev or_invalid : Option Shape → Result Shape
or_invalid none = err (http_exception 422 "Invalid AOI geometry: {e}")
or_invalid (some g) = ok g

abbrev checked : Shapely → Result Shape → Result Shape
checked lib (ok g) =
    if lib.is_valid g then ok g else err (http_exception 422 "AOI is not a valid polygon")
checked lib (err e) = err e

abbrev then_as_multi : Result Shape → Result Shape
then_as_multi (ok g) = as_multi_polygon g
then_as_multi (err e) = err e

unfoldable pub aoi_to_shapely : Shapely → AoiInput → Result Shape
aoi_to_shapely lib aoi = checked lib (then_as_multi (or_invalid (lib.shape (geometry_of aoi))))

unfoldable pub set_aoi : ℕ → Option Wkb → Datetime → Db → Db
set_aoi project_id aoi now =
    update_project project_id
      (λ p. record p { aoi = aoi; task_boundary_type = none; updated_at = now })

unfoldable pub upload_aoi : Shapely → Datetime → ℕ → ℕ → AoiInput → UserInfo → Action Db Shape
upload_aoi lib now workspace_id project_id aoi user = do
  project ← query (get_project workspace_id project_id)
  raise_if (not (is_draft project.status))
      (http_exception 422 "AOI can only be set or replaced while the project is in draft")
  geom ← query (λ _. aoi_to_shapely lib aoi)
  execute (delete_tasks project.id)
  execute (set_aoi project.id (some (lib.from_shape geom)) now)
  execute (audit aoi_uploaded project.id none user.user_uuid no_details)
  commit
  pure geom

unfoldable pub delete_aoi : Datetime → ℕ → ℕ → UserInfo → Action Db (Unit {0})
delete_aoi now workspace_id project_id user = do
  project ← query (get_project workspace_id project_id)
  raise_if (not (is_draft project.status))
      (http_exception 422 "AOI can only be deleted while the project is in draft")
  raise_if (not (is_some project.aoi)) (not_found_exception "AOI is not set on this project")
  execute (delete_tasks project.id)
  execute (set_aoi project.id none now)
  execute (audit aoi_deleted project.id none user.user_uuid no_details)
  commit
