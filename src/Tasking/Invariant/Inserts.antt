-- ===== src/Tasking/Invariant/Inserts.antt =====
-- The INSERT statements of api/src/tasking against the invariant.
use workspaces_backend.Base.{
  ℕ, ◌+◌, ◌≤◌, ◌<◌, ◌≡◌, true, false, List, [], ◌∷◌, ◌++◌, filter, length, any, All, All-map,
  All-append, All-zip, Distinct, Distinct-append, length-filter-append, length-filter_none, arith,
}
use workspaces_backend.Tasking.Schema.{TaskingProject, TaskingTask, TaskingLock}
use workspaces_backend.Tasking.Tasks.Queries.{locks_task, locks_for_user}
use workspaces_backend.Tasking.Invariant.State.{
  IsSound, Agrees, IsOpened, IsFresh, has_mapper, project_key, task_key,
}

module _ {ps : List TaskingProject} {ts : List TaskingTask} {ls : List TaskingLock}
    {np nt : ℕ} where
  module _ (s : IsSound ps ts ls np nt) where
    -- A new lock that agrees with its task and project, where neither index is violated.
    pub insert_lock-IsSound :
        (l : TaskingLock)
        → IsFresh np nt l
        → any (locks_task l.task_id) ls ≡ false
        → any (locks_for_user l.project_id l.user_auth_uid) ls ≡ false
        → All (Agrees l) ts
        → All (IsOpened l) ps
        → IsSound ps ts (ls ++ l ∷ []) np nt
    insert_lock-IsSound l fresh free idle agrees opened = record {
      project_ids = s.project_ids;
      projects_below = s.projects_below;
      task_ids = s.task_ids;
      tasks_below = s.tasks_below;
      mappers = s.mappers;
      locks_below = All-append (IsFresh np nt) ls (l ∷ []) s.locks_below (fresh, tt);
      one_per_task = λ k. ground (
        arith,
        s.one_per_task k,
        length-filter-append (locks_task k) ls (l ∷ []),
        length-filter_none (locks_task l.task_id) ls free,
        same_count k,
      );
      one_per_user = λ k u. ground (
        arith,
        s.one_per_user k u,
        length-filter-append (locks_for_user k u) ls (l ∷ []),
        length-filter_none (locks_for_user l.project_id l.user_auth_uid) ls idle,
        same_count_user k u,
      );
      agree = All-append (λ m. All (Agrees m) ts) ls (l ∷ []) s.agree (agrees, tt);
      opened = All-append (λ m. All (IsOpened m) ps) ls (l ∷ []) s.opened (opened, tt);
    }
      where
        same_count :
            (k : ℕ)
            → l.task_id ≡ k
            → length (filter (locks_task l.task_id) ls) ≡ length (filter (locks_task k) ls)
        same_count k e = rw e

        same_count_user :
            (k u : ℕ)
            → l.project_id ≡ k
            → l.user_auth_uid ≡ u
            → length (filter (locks_for_user l.project_id l.user_auth_uid) ls)
              ≡ length (filter (locks_for_user k u) ls)
        same_count_user k u e d = rw (e, d)

    -- New tasks with ids from the sequence: no lock names them yet.
    pub insert_tasks-IsSound :
        (new : List TaskingTask)
        → All (λ t. nt ≤ t.id) new
        → All (λ t. t.id < nt + length new) new
        → Distinct task_key new
        → All (λ t. has_mapper t.status t.last_mapper_id ≡ true) new
        → IsSound ps (ts ++ new) ls np (nt + length new)
    insert_tasks-IsSound new above below distinct mapped = record {
      project_ids = s.project_ids;
      projects_below = s.projects_below;
      task_ids = Distinct-append task_key nt ts new s.tasks_below above s.task_ids distinct;
      tasks_below =
          All-append (λ t. t.id < nt + length new) ts new
            (All-map (λ t. t.id < nt) (λ t. t.id < nt + length new) (λ t h. omega arith) ts
              s.tasks_below)
            below;
      mappers =
          All-append (λ t. has_mapper t.status t.last_mapper_id ≡ true) ts new s.mappers mapped;
      locks_below =
          All-map (IsFresh np nt) (IsFresh np (nt + length new)) (λ l h. omega arith) ls
            s.locks_below;
      one_per_task = s.one_per_task;
      one_per_user = s.one_per_user;
      agree =
          All-map (λ l. All (Agrees l) ts × IsFresh np nt l) (λ l. All (Agrees l) (ts ++ new))
            (λ l h. All-append (Agrees l) ts new h.0 (
              All-map (λ t. nt ≤ t.id) (Agrees l) (λ t le a e. absurd (omega (arith, h.1, le, e)))
                new above))
            ls (All-zip _ _ ls s.agree s.locks_below);
      opened = s.opened;
    }

    -- A new project with the next id: no lock names it yet.
    pub insert_project-IsSound :
        (p : TaskingProject) → p.id ≡ np → IsSound (ps ++ p ∷ []) ts ls (np + 1) nt
    insert_project-IsSound p next = record {
      project_ids =
          Distinct-append project_key np ps (p ∷ []) s.projects_below (omega arith, tt)
            s.project_ids (tt, tt);
      projects_below =
          All-append (λ q. q.id < np + 1) ps (p ∷ [])
            (All-map (λ q. q.id < np) (λ q. q.id < np + 1) (λ q h. omega arith) ps s.projects_below)
            (omega arith, tt);
      task_ids = s.task_ids;
      tasks_below = s.tasks_below;
      mappers = s.mappers;
      locks_below =
          All-map (IsFresh np nt) (IsFresh (np + 1) nt) (λ l h. omega arith) ls s.locks_below;
      one_per_task = s.one_per_task;
      one_per_user = s.one_per_user;
      agree = s.agree;
      opened =
          All-map (λ l. All (IsOpened l) ps × IsFresh np nt l)
            (λ l. All (IsOpened l) (ps ++ p ∷ []))
            (λ l h.
              All-append (IsOpened l) ps (p ∷ []) h.0
                ((λ a e. absurd (omega (arith, h.1, e, next))), tt))
            ls (All-zip _ _ ls s.opened s.locks_below);
    }
