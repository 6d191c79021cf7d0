-- ===== src/Tasking/Properties/Lifecycle.antt =====
-- What the life cycle of a project promises: `close` and `activate` of
-- api/src/tasking/projects/repository.py.

use workspaces_backend.Base.{
  ℕ, ◌≡◌, ◌≤◌, refl, sym, ◌∙◌, true, false, List, [], ◌∷◌, arith, filter, any, any-eq-false, All,
  All-map, filter-head, subst,
}
use workspaces_backend.Core.{
  ok, Ends, bind_query, bind_raise_if, bind_execute, bind_commit, end_pure,
  scalar_one_or_raise-eq-ok,
}
use workspaces_backend.Security.UserInfo.{UserInfo}
use workspaces_backend.Tasking.Schema.{
  Db, TaskingProject, TaskingTask, TaskStatus, to_map, to_review, to_remap, completed, status_eq,
  Datetime,
}
use workspaces_backend.Tasking.Tasks.Queries.{get_project, is_project, audit}
use workspaces_backend.Tasking.Projects.Queries.{ProjectResponse, update_project, task_count}
use workspaces_backend.Tasking.Projects.Lifecycle.{close, activate, is_unfinished_in, is_worker_of}
use workspaces_backend.Tasking.Service.{opened, after}
use workspaces_backend.Tasking.Safety.ProjectWrites.{IsIdle}

-- The SELECT found the project that the path names.
pub get_project-id : (w i : ℕ) (db : Db) (p : TaskingProject) → get_project w i db ≡ ok p → p.id ≡ i
unfolding get_project
get_project-id w i db p h =
    let hit =
      filter-head (λ _. Unit) (is_project w i) db.projects [] p
        (scalar_one_or_raise-eq-ok _ (filter (is_project w i) db.projects) p h)
        (all_rows db.projects) in
    ground (arith, hit.1)
  where
    all_rows : (ps : List TaskingProject) → All (λ _. Unit {0}) ps
    all_rows [] = tt
    all_rows (p ∷ ps) = (tt, all_rows ps)

status_eq-completed : (st : TaskStatus) → status_eq st completed ≡ true → st ≡ completed
status_eq-completed to_map h = absurd (cc h)
status_eq-completed to_review h = absurd (cc h)
status_eq-completed to_remap h = absurd (cc h)
status_eq-completed completed h = refl

-- Every task of the project is completed, and nobody holds a lock in it.
abbrev pub IsFinished : ℕ → Db → Type 0
IsFinished i db = All (λ t. t.project_id ≡ i → t.status ≡ completed) db.tasks × IsIdle i db

finished-tasks :
    (i : ℕ) (ts : List TaskingTask)
    → any (is_unfinished_in i) ts ≡ false
    → All (λ t. t.project_id ≡ i → t.status ≡ completed) ts
finished-tasks i ts h =
    All-map _ _ (λ t u e. status_eq-completed t.status (ground (arith, u, e))) ts
      (any-eq-false (is_unfinished_in i) ts h)

module _ (now : Datetime) (w i : ℕ) (user : UserInfo) where
  close-Ends :
      (db : Db)
      → Ends
          (λ r. (x : ProjectResponse) → r.0 ≡ ok x → IsFinished i r.1.committed)
          (close now w i user)
          (opened db)
  unfolding close audit update_project
  close-Ends db =
      bind_query _ _
        (λ project hp.
          bind_raise_if _ _ _
            (λ _.
              bind_query _ _
                (λ not_done hn.
                  bind_raise_if _ _ _
                    (λ done_ok.
                      bind_query _ _
                        (λ active ha.
                          bind_raise_if _ _ _
                            (λ idle.
                              let same = get_project-id w i db project hp in
                              let facts : IsFinished i db = (
                                rw (sym same)
                                    (finished-tasks project.id db.tasks (cc (hn, done_ok))),
                                rw (sym same) (cc (ha, idle)),
                              ) in
                              bind_execute _ _ (
                                bind_execute _ _ (
                                  bind_commit _ (
                                    bind_query _ _
                                      (λ _ _.
                                        bind_query _ _ (λ _ _. end_pure _ (λ x h. facts))
                                          (λ e x h. facts))
                                      (λ e x h. facts)))))
                            (λ x h. absurd (cc h)))
                        (λ e x h. absurd (cc h)))
                    (λ x h. absurd (cc h)))
                (λ e x h. absurd (cc h)))
            (λ x h. absurd (cc h)))
        (λ e x h. absurd (cc h))

  -- A project is only ever closed when the work is over: where `close` succeeds, every task of the
  -- project is completed in the tables that it leaves, and no active lock is held in the project.
  pub close-IsFinished :
      (db : Db) (x : ProjectResponse)
      → (close now w i user (opened db)).0 ≡ ok x
      → IsFinished i (after (close now w i user) db)
  close-IsFinished db x h = (close-Ends db).at x h

  -- What an open project needs: tasks to work on and somebody to work.
  abbrev pub IsReady : Db → Type 0
  IsReady db = (1 ≤ task_count i db) × (any (is_worker_of i) db.project_roles ≡ true)

  activate-Ends :
      (db : Db)
      → Ends
          (λ r. (x : ProjectResponse) → r.0 ≡ ok x → IsReady r.1.committed)
          (activate now w i user)
          (opened db)
  unfolding activate audit update_project task_count
  activate-Ends db =
      bind_query _ _
        (λ project hp.
          bind_raise_if _ _ _
            (λ _.
              bind_raise_if _ _ _
                (λ _.
                  bind_raise_if _ _ _
                    (λ _.
                      bind_query _ _
                        (λ count hc.
                          bind_raise_if _ _ _
                            (λ some_tasks.
                              bind_query _ _
                                (λ staffed hs.
                                  bind_raise_if _ _ _
                                    (λ some_worker.
                                      let same = get_project-id w i db project hp in
                                      let counted : task_count project.id db ≡ count = cc hc in
                                      let enough : 1 ≤ count = ground (arith, some_tasks) in
                                      let worker : any (is_worker_of project.id) db.project_roles
                                          ≡ staffed =
                                        cc hs in
                                      let facts : IsReady db = (
                                        rw (sym same) (subst (λ c. 1 ≤ c) (sym counted) enough),
                                        rw (sym same) (worker ∙ ground (arith, some_worker)),
                                      ) in
                                      bind_execute _ _ (
                                        bind_execute _ _ (
                                          bind_commit _ (
                                            bind_query _ _ (λ _ _. end_pure _ (λ x h. facts))
                                              (λ e x h. facts)))))
                                    (λ x h. absurd (cc h)))
                                (λ e x h. absurd (cc h)))
                            (λ x h. absurd (cc h)))
                        (λ e x h. absurd (cc h)))
                    (λ x h. absurd (cc h)))
                (λ x h. absurd (cc h)))
            (λ x h. absurd (cc h)))
        (λ e x h. absurd (cc h))

  -- Activation needs tasks and a worker: where `activate` succeeds, the tables that it leaves have
  -- a task in the project and a contributor or validator for it.
  pub activate-IsReady :
      (db : Db) (x : ProjectResponse)
      → (activate now w i user (opened db)).0 ≡ ok x
      → IsReady (after (activate now w i user) db)
  activate-IsReady db x h = (activate-Ends db).at x h
