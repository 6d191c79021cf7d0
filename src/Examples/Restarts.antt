-- ===== src/Examples/Restarts.antt =====
-- Releasing, resetting, a save that fails and a list in pages, in the example workspace.
use workspaces_backend.Tasking.Properties.Pages.{
  IsWhole, read_pages, is_held_as_asked, read_pages-IsWhole,
}
use workspaces_backend.Tasking.Dtos.{TaskResponse}
use workspaces_backend.Tasking.Tasks.Response.{
  to_task_response, polygon_of, lock_summary, last_mapper, feedback_responses,
}
use workspaces_backend.Tasking.Tasks.Listing.{TaskFilter, listed, clamped}
use workspaces_backend.Base.{
  ◌≡◌, refl, false, [], ◌∷◌, none, some, length, ◌≤◌, ◌*◌, arith, List, filter,
}
use workspaces_backend.Core.{Result, ok, err, http_exception, run}
use workspaces_backend.Tasking.Schema.{to_map, grid, Db}
use workspaces_backend.Tasking.Tasks.Queries.{
  get_task, get_project, get_active_lock, audit, release_lock, lookup_user_display,
}
use workspaces_backend.Tasking.Tasks.Locks.{unlock_task, reset_task, release_reason}
use workspaces_backend.Tasking.Tasks.Save.{
  SaveTasksRequest, save, save_new, tasks_from, task_polygon, polygon_to_shapely, aoi_covers,
  polygon_area_km_2, stored_save, task_responses,
}
use workspaces_backend.Tasking.Projects.Lifecycle.{reset_project}
use workspaces_backend.Tasking.Service.{opened, after}
use workspaces_backend.Tasking.Properties.Submission.{IsMoved}
use workspaces_backend.Tasking.Properties.Releasing.{unlock_task-IsReleased, IsReleased}
use workspaces_backend.Tasking.Properties.Resetting.{
  reset_project-IsUnstarted, reset_task-IsMoved, IsUnstarted,
}
use workspaces_backend.Tasking.Properties.Atomicity.{save-atomic}
use workspaces_backend.Examples.Data.{
  feature, segments, rosa, lena, project, task, rosas_lock, db, draft_db,
}
use workspaces_backend.Examples.Theorems.{db-Inv}

rosa_unlocks : (unlock_task 9 1 1 1 rosa false (opened db)).0 ≡ ok tt
unfolding run unlock_task get_project get_task get_active_lock release_reason audit release_lock
rosa_unlocks = refl

unlock_task-IsReleased_example :
    IsReleased 9 1 1 1 rosa false task db (after (unlock_task 9 1 1 1 rosa false) db)
unlock_task-IsReleased_example =
    unlock_task-IsReleased 9 1 1 1 rosa false db task (unfold get_task in refl) rosa_unlocks

reset_project-IsUnstarted_example : IsUnstarted 1 (after (reset_project 9 1 1 lena) db)
reset_project-IsUnstarted_example =
    reset_project-IsUnstarted 9 1 1 lena db project db-Inv (unfold get_project in refl) refl

reset_task-IsMoved_example :
    IsMoved 1 1
      (record task { status = to_map; last_mapper_id = none; updated_at = 9 })
      (after (reset_task segments 9 1 1 1 lena) db)
reset_task-IsMoved_example =
    reset_task-IsMoved segments 9 1 1 1 lena db project task (some rosas_lock)
      (unfold get_project in refl) refl (unfold get_task in refl) (unfold get_active_lock in refl)

-- The second feature sticks out of the area of interest.
abbrev wide_body : SaveTasksRequest
wide_body = record { source = grid; features = feature 5 ∷ feature 70 ∷ [] }

save-refused :
    (save segments 5 1 1 lena wide_body none (opened draft_db)).0
    ≡ err (http_exception 422 "Task feature {idx} is not fully inside the project AOI")
unfolding run save get_project save_new tasks_from task_polygon polygon_to_shapely aoi_covers
    polygon_area_km_2 stored_save
save-refused = refl

save-atomic_example : after (save segments 5 1 1 lena wide_body none) draft_db ≡ draft_db
save-atomic_example = save-atomic segments 5 1 1 lena wide_body none draft_db _ save-refused

-- Two tasks, stored out of order and read in pages of one.
abbrev two_tasks_db : Db
two_tasks_db = record db { tasks = record task { id = 2; task_number = 2 } ∷ task ∷ [] }

abbrev held_by_rosa : TaskFilter
held_by_rosa = record { status_filter = none; locked_by_user_id = some 8; last_mapper_id = some 7 }

abbrev given : Result (List TaskResponse) → List TaskResponse
given (ok rs) = rs
given (err e) = []

abbrev two_responses : List TaskResponse
two_responses = given (task_responses segments (listed 1 held_by_rosa two_tasks_db) two_tasks_db)

both_answered :
    task_responses segments (listed 1 held_by_rosa two_tasks_db) two_tasks_db ≡ ok two_responses
unfolding task_responses listed to_task_response get_active_lock polygon_of lock_summary last_mapper
    feedback_responses lookup_user_display
both_answered = refl

two_pages : length two_responses ≤ 2 * clamped 1
unfolding task_responses listed to_task_response get_active_lock polygon_of lock_summary last_mapper
    feedback_responses lookup_user_display
two_pages = omega arith

read_pages-IsWhole_example :
    IsWhole segments two_tasks_db 1 held_by_rosa two_responses
    × (read_pages segments two_tasks_db 1 1 held_by_rosa 1 1 2
        ≡ filter (is_held_as_asked held_by_rosa) two_responses)
read_pages-IsWhole_example =
    read_pages-IsWhole segments two_tasks_db 1 1 held_by_rosa 1 project two_responses 2
      (unfold get_project in refl) both_answered two_pages
