-- ===== src/Tasking/Properties/Pages.antt =====
-- The task list that a client reads page by page: `list_tasks` of
-- api/src/tasking/tasks/repository.py.
use Prim.Native.Nat.{zero, suc}
use workspaces_backend.Base.{
  ℕ, ◌+◌, ◌-◌, ◌*◌, ◌≤◌, ◌≡◌, refl, sym, ap, subst, ◌∙◌, Bool, ◌&&◌, List, [], ◌++◌, length, filter,
  take, drop, holds, arith,
}
use workspaces_backend.Core.{Result, ok, err, run}
use workspaces_backend.Tasking.Schema.{Db, TaskingProject}
use workspaces_backend.Tasking.Dtos.{TaskResponse}
use workspaces_backend.Tasking.Geometry.{Shapely}
use workspaces_backend.Tasking.Tasks.Queries.{get_project}
use workspaces_backend.Tasking.Tasks.Save.{task_responses}
use workspaces_backend.Tasking.Tasks.Listing.{
  TaskFilter, TaskListResponse, listed, task_rows, clamped, at_least_one, list_tasks, is_listed,
  is_locked_by,
}
use workspaces_backend.Tasking.Properties.Paging.{collected, collected-all, page_of}
use workspaces_backend.Tasking.Service.{opened}
use workspaces_backend.Tasking.Properties.Selection.{
  asked, matches, holder, has_number, order-Ordered, filter-order, filter-matches, filter-same,
  filter-append, is_locked_by-asked,
}
use workspaces_backend.Tasking.Properties.Responses.{
  IsAscending, answers_number, responses-filter, responses-take, responses-drop,
  responses-IsAscending,
}

abbrev pub is_held_as_asked : TaskFilter → TaskResponse → Bool
is_held_as_asked f r = asked f.locked_by_user_id (holds (holder r.lock))

module _ (lib : Shapely) (db : Db) where
  -- The responses are those of the matching tasks, each once, in the order of their numbers.
  pub record IsWhole (i : ℕ) (f : TaskFilter) (rs : List TaskResponse) : Type 0 where
    pub ascending : IsAscending rs
    pub exact :
        (n : ℕ)
        → task_responses lib (filter (λ t. has_number n t && matches i f t) db.tasks) db
          ≡ ok (filter (answers_number n) rs)

  module _ (w i : ℕ) (f : TaskFilter) (page_size : ℕ) where
    abbrev pub tasks_of : Result TaskListResponse → List TaskResponse
    tasks_of (ok r) = r.tasks
    tasks_of (err e) = []

    -- What a client gets that asks for `count` pages, one after another, the first of them `page`.
    abbrev pub read_pages : ℕ → ℕ → List TaskResponse
    read_pages page zero = []
    read_pages page (suc count) =
        tasks_of (list_tasks lib w i f page page_size (opened db)).0 ++ read_pages (page + 1) count

    list_tasks-page :
        (project : TaskingProject) (rs : List TaskResponse) (m : ℕ)
        → get_project w i db ≡ ok project
        → task_responses lib (listed i f db) db ≡ ok rs
        → tasks_of (list_tasks lib w i f (m + 1) page_size (opened db)).0
          ≡ filter (is_held_as_asked f) (page_of (clamped page_size) rs m)
    unfolding list_tasks task_rows run
    list_tasks-page project rs m hp h =
        let before : at_least_one (m + 1) - 1 ≡ m = ground arith in
        let size = clamped page_size in
        let answers : task_responses lib (take size (drop (m * size) (listed i f db))) db
            ≡ ok (page_of size rs m) =
          responses-take lib db size (drop (m * size) (listed i f db)) (drop (m * size) rs)
            (responses-drop lib db (m * size) (listed i f db) rs h) in
        rw (hp, before, answers)
          (filter-same (λ r. is_locked_by f.locked_by_user_id r.lock) (is_held_as_asked f)
            (λ r. is_locked_by-asked f.locked_by_user_id r.lock) (page_of size rs m))

    read_pages-collected :
        (project : TaskingProject) (rs : List TaskResponse)
        → get_project w i db ≡ ok project
        → task_responses lib (listed i f db) db ≡ ok rs
        → (m count : ℕ)
        → read_pages (m + 1) count
          ≡ filter (is_held_as_asked f) (collected (clamped page_size) rs m count)
    read_pages-collected project rs hp h m zero = refl
    read_pages-collected project rs hp h m (suc count) =
        let size = clamped page_size in
        ap (λ r. r ++ read_pages (m + 1 + 1) count) (list_tasks-page project rs m hp h)
        ∙ ap (λ r. filter (is_held_as_asked f) (page_of size rs m) ++ r)
            (read_pages-collected project rs hp h (m + 1) count)
        ∙ sym (
            filter-append (is_held_as_asked f) (page_of size rs m)
              (collected size rs (m + 1) count))

    -- Reading the task list page by page while the tables do not change: of a project that is there,
    -- and whose matching tasks all have a response, a client that asks for the pages from the first
    -- one on, as many as the number of responses needs, gets, whatever page size it asks for, the
    -- responses of the tasks of the project with the status and the last mapper that it asks for,
    -- each as often as the table has it, in ascending order of the task numbers, less those whose
    -- active lock is not held by the user that it asks for.
    pub read_pages-IsWhole :
        (project : TaskingProject) (rs : List TaskResponse) (count : ℕ)
        → get_project w i db ≡ ok project
        → task_responses lib (listed i f db) db ≡ ok rs
        → length rs ≤ count * clamped page_size
        → IsWhole i f rs × (read_pages 1 count ≡ filter (is_held_as_asked f) rs)
    unfolding listed
    read_pages-IsWhole project rs count hp h enough = (
      record {
        ascending =
            responses-IsAscending lib db (listed i f db) rs h
              (order-Ordered (filter (is_listed i f) db.tasks));
        exact = λ n.
            subst (λ ts. task_responses lib ts db ≡ ok (filter (answers_number n) rs))
              (filter-order n (filter (is_listed i f) db.tasks) ∙ filter-matches i f n db.tasks)
              (responses-filter lib db n (listed i f db) rs h);
      },
      read_pages-collected project rs hp h 0 count
          ∙ ap (filter (is_held_as_asked f)) (collected-all (clamped page_size) rs count enough),
    )
