-- ===== src/Examples/Projects.antt =====
-- The theorems on the life cycle of a project and on saving its tasks, in the example workspace.
use workspaces_backend.Tasking.Projects.Queries.{update_project, refresh, task_count, to_response}
use workspaces_backend.Tasking.Dtos.{SaveTasksResponse, TaskResponse}
use workspaces_backend.Tasking.Tasks.Response.{
  to_task_response, polygon_of, lock_summary, last_mapper, feedback_responses,
}
use workspaces_backend.Base.{ℕ, ◌≡◌, refl, true, false, [], ◌∷◌, none, some, map, All}
use workspaces_backend.Core.{ok, run}
use workspaces_backend.Tasking.Schema.{
  Db, TaskingProject, draft, TaskingTask, to_map, grid, done, open_,
}
use workspaces_backend.Tasking.Geometry.{polygon}
use workspaces_backend.Tasking.Tasks.Queries.{
  get_project, get_active_lock, audit, lookup_user_display,
}
use workspaces_backend.Tasking.Tasks.Save.{
  SaveTasksRequest, save, tasks_from, save_new, task_polygon, polygon_to_shapely, aoi_covers,
  polygon_area_km_2, insert_tasks, set_boundary_type, task_responses, stored_save, store_save,
}
use workspaces_backend.Tasking.Projects.Lifecycle.{close, activate}
use workspaces_backend.Tasking.Projects.Edit.{
  ProjectUpdateRequest, patch, updated_fields, apply_updates, save_updates,
}
use workspaces_backend.Tasking.Service.{opened, after}
use workspaces_backend.Tasking.Properties.Saving.{save-replays, IsReplayed}
use workspaces_backend.Tasking.Properties.Numbering.{IsInside, numbered, tasks_from-numbers}
use workspaces_backend.Tasking.Properties.Lifecycle.{
  close-IsFinished, activate-IsReady, IsFinished, IsReady,
}
use workspaces_backend.Tasking.Properties.Patching.{patch-review_required}
use workspaces_backend.Examples.Data.{
  feature, segments, exact, mary, lena, project, db, draft_db, unstarted_db, finished_db,
}

abbrev new_task : ℕ → ℕ → ℕ → TaskingTask
new_task id number geometry = record {
  id = id;
  project_id = 1;
  task_number = number;
  area_sqkm = geometry;
  status = to_map;
  last_mapper_id = none;
  geometry = geometry;
  created_at = 4;
  updated_at = 4;
}

two_tasks :
    tasks_from segments 1 4 (polygon 60) 0 2 (5 ∷ 7 ∷ [])
    ≡ ok (new_task 2 1 5 ∷ new_task 3 2 7 ∷ [])
unfolding tasks_from task_polygon polygon_to_shapely aoi_covers polygon_area_km_2
two_tasks = refl

tasks_from-numbers_example :
    (map (λ (t : TaskingTask). t.task_number) (new_task 2 1 5 ∷ new_task 3 2 7 ∷ [])
      ≡ numbered 1 (5 ∷ 7 ∷ []))
    × All (IsInside segments (polygon 60)) (5 ∷ 7 ∷ [])
tasks_from-numbers_example =
    tasks_from-numbers segments 1 4 (polygon 60) 0 2 (5 ∷ 7 ∷ [])
      (new_task 2 1 5 ∷ new_task 3 2 7 ∷ []) two_tasks

close-closes :
    (close 9 1 1 lena (opened finished_db)).0
    ≡ ok (to_response (record project { status = done; updated_at = 9 }) 1)
unfolding run close get_project audit update_project refresh task_count
close-closes = refl

close-IsFinished_example : IsFinished 1 (after (close 9 1 1 lena) finished_db)
close-IsFinished_example = close-IsFinished 9 1 1 lena finished_db _ close-closes

activate-activates :
    (activate 9 1 1 lena (opened unstarted_db)).0
    ≡ ok (to_response (record project { status = open_; updated_at = 9 }) 1)
unfolding run activate get_project audit update_project refresh task_count
activate-activates = refl

activate-IsReady_example : IsReady 9 1 1 lena (after (activate 9 1 1 lena) unstarted_db)
activate-IsReady_example = activate-IsReady 9 1 1 lena unstarted_db _ activate-activates

abbrev new_instructions : ProjectUpdateRequest
new_instructions = record {
  name = none;
  instructions = some "Map it";
  lock_timeout_hours = none;
  review_required = none;
  custom_imagery = none;
  description = none;
}

patched :
    get_project 1 1 (after (patch exact 9 1 1 new_instructions lena) db)
    ≡ ok (record project { instructions = some "Map it"; updated_at = 9 })
unfolding run patch get_project updated_fields apply_updates save_updates update_project audit
    refresh task_count
patched = refl

patch-review_required_example :
    (record project { instructions = some "Map it"; updated_at = 9 }).review_required ≡ true
patch-review_required_example =
    patch-review_required 9 1 1 lena exact new_instructions db project
      (record project { instructions = some "Map it"; updated_at = 9 }) (unfold get_project in refl)
      refl patched

abbrev save_body : SaveTasksRequest
save_body = record { source = grid; features = feature 5 ∷ feature 7 ∷ [] }

abbrev answer : ℕ → ℕ → ℕ → TaskResponse
answer id number geometry = record {
  id = id;
  task_number = number;
  status = to_map;
  geometry = geometry;
  area_sqkm = geometry;
  lock = none;
  last_mapper = none;
  feedback = [];
  created_at = 5;
  updated_at = 5;
}

abbrev first_answer : SaveTasksResponse
first_answer = record {
  project_id = 1;
  task_boundary_type = grid;
  task_count = 2;
  tasks = answer 2 1 5 ∷ answer 3 2 7 ∷ [];
  idempotency_key = some "k";
  replayed = false;
}

save-first_answer :
    (save segments 5 1 1 lena save_body (some "k") (opened draft_db)).0 ≡ ok (first_answer, false)
unfolding run save get_project save_new tasks_from task_polygon polygon_to_shapely aoi_covers
    polygon_area_km_2 insert_tasks set_boundary_type audit task_responses to_task_response
    polygon_of lock_summary last_mapper feedback_responses stored_save store_save get_active_lock
    lookup_user_display
save-first_answer = refl

-- Later on, the project was renamed.
abbrev later_project : TaskingProject
later_project = record project { name = 98 ∷ []; status = draft; updated_at = 7 }

abbrev renamed : Db
renamed = record (after (save segments 5 1 1 lena save_body (some "k")) draft_db) {
  projects = later_project ∷ [];
}

save-replays_example :
    IsReplayed segments 1 1 save_body "k" 8 mary first_answer
      (after (save segments 5 1 1 lena save_body (some "k")) draft_db)
    × IsReplayed segments 1 1 save_body "k" 8 mary first_answer renamed
save-replays_example =
    save-replays segments 1 1 save_body "k" 5 8 lena mary draft_db renamed first_answer
      later_project 60 refl save-first_answer refl (unfold get_project in refl) refl refl
