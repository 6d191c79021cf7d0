-- ===== src/Tasking/Invariant/Statements.antt =====
-- The UPDATE and DELETE statements of api/src/tasking against the invariant.
use workspaces_backend.Base.{
  ℕ, ◌≡◌, ◌∙◌, sym, Bool, true, List, update_where, All, All-map, All-update_where,
  length-filter-update_where, arith, Distinct-update_where, delete_where, Distinct-delete_where,
  ◌<◌, All-delete_where, All-zip, length-filter-delete_where,
}
use workspaces_backend.Tasking.Schema.{TaskingProject, TaskingTask, TaskingLock}
use workspaces_backend.Tasking.Tasks.Queries.{is_active, locks_task, locks_for_user}
use workspaces_backend.Tasking.Invariant.State.{
  IsSound, Agrees, IsOpened, IsFresh, has_mapper, task_key, project_key,
}

-- A change of a lock that keeps what it names and does not make it active.
pub record IsMild (f : TaskingLock → TaskingLock) : Type 0 where
  pub same_task : (l : TaskingLock) → (f l).task_id ≡ l.task_id
  pub same_project : (l : TaskingLock) → (f l).project_id ≡ l.project_id
  pub same_user : (l : TaskingLock) → (f l).user_auth_uid ≡ l.user_auth_uid
  pub same_status : (l : TaskingLock) → (f l).task_status_at_lock ≡ l.task_status_at_lock
  pub was_active : (l : TaskingLock) → is_active (f l) ≡ true → is_active l ≡ true

module _ {ps : List TaskingProject} {ts : List TaskingTask} {ls : List TaskingLock}
    {np nt : ℕ} where
  module _ (s : IsSound ps ts ls np nt) where
    pub update_locks-IsSound :
        (p : TaskingLock → Bool) (f : TaskingLock → TaskingLock)
        → IsMild f
        → IsSound ps ts (update_where p f ls) np nt
    update_locks-IsSound p f m = record {
      project_ids = s.project_ids;
      projects_below = s.projects_below;
      task_ids = s.task_ids;
      tasks_below = s.tasks_below;
      mappers = s.mappers;
      locks_below =
          All-update_where (IsFresh np nt) (IsFresh np nt) p f
            (λ l h _. omega (arith, m.same_task l, m.same_project l)) (λ l h _. h) ls s.locks_below;
      one_per_task = λ k. omega (
        arith,
        s.one_per_task k,
        length-filter-update_where (locks_task k) p f
            (λ l h. ground (arith, m.same_task l, m.was_active l)) ls,
      );
      one_per_user = λ k u. omega (
        arith,
        s.one_per_user k u,
        length-filter-update_where (locks_for_user k u) p f
            (λ l h. ground (arith, m.same_project l, m.same_user l, m.was_active l)) ls,
      );
      agree =
          All-update_where (λ l. All (Agrees l) ts) (λ l. All (Agrees l) ts) p f
            (λ l h _.
              All-map (Agrees l) (Agrees (f l))
                (λ t k a e.
                  let old = k (m.was_active l a) (sym (m.same_task l) ∙ e) in
                  (
                    old.0 ∙ sym (m.same_project l),
                    old.1 ∙ sym (m.same_status l),
                    rw (m.same_user l) old.2,
                  ))
                ts h)
            (λ l h _. h) ls s.agree;
      opened =
          All-update_where (λ l. All (IsOpened l) ps) (λ l. All (IsOpened l) ps) p f
            (λ l h _.
              All-map (IsOpened l) (IsOpened (f l))
                (λ q k a e. k (m.was_active l a) (sym (m.same_project l) ∙ e)) ps h)
            (λ l h _. h) ls s.opened;
    }

    -- A change of tasks on which no active lock is held.
    pub update_tasks-IsSound :
        (p : TaskingTask → Bool) (g : TaskingTask → TaskingTask)
        → ((t : TaskingTask) → (g t).id ≡ t.id)
        → All (λ t. p t ≡ true → has_mapper (g t).status (g t).last_mapper_id ≡ true) ts
        → All (λ l. All (λ t. p t ≡ true → is_active l ≡ true → l.task_id ≡ t.id → ⊥) ts) ls
        → IsSound ps (update_where p g ts) ls np nt
    update_tasks-IsSound p g same mapped quiet = record {
      project_ids = s.project_ids;
      projects_below = s.projects_below;
      task_ids = Distinct-update_where task_key p g same ts s.task_ids;
      tasks_below =
          All-update_where (λ t. t.id < nt) (λ t. t.id < nt) p g (λ t h _. omega (arith, same t))
            (λ t h _. h) ts s.tasks_below;
      mappers =
          All-update_where
            (λ t.
              (p t ≡ true → has_mapper (g t).status (g t).last_mapper_id ≡ true)
              × (has_mapper t.status t.last_mapper_id ≡ true))
            (λ t. has_mapper t.status t.last_mapper_id ≡ true) p g (λ t h e. h.0 e) (λ t h _. h.1)
            ts (All-zip _ _ ts mapped s.mappers);
      locks_below = s.locks_below;
      one_per_task = s.one_per_task;
      one_per_user = s.one_per_user;
      agree =
          All-map _ (λ l. All (Agrees l) (update_where p g ts))
            (λ l h.
              All-update_where
                (λ t. Agrees l t × (p t ≡ true → is_active l ≡ true → l.task_id ≡ t.id → ⊥))
                (Agrees l) p g (λ t k e a same_id. absurd (k.1 e a (same_id ∙ same t)))
                (λ t k _. k.0) ts (All-zip _ _ ts h.0 h.1))
            ls (All-zip _ _ ls s.agree quiet);
      opened = s.opened;
    }

    -- A change of projects that closes or deletes none with an active lock.
    pub update_projects-IsSound :
        (q : TaskingProject → Bool) (f : TaskingProject → TaskingProject)
        → ((p : TaskingProject) → (f p).id ≡ p.id)
        → All (λ l. All (λ p. q p ≡ true → IsOpened l p → IsOpened l (f p)) ps) ls
        → IsSound (update_where q f ps) ts ls np nt
    update_projects-IsSound q f same keep = record {
      project_ids = Distinct-update_where project_key q f same ps s.project_ids;
      projects_below =
          All-update_where (λ p. p.id < np) (λ p. p.id < np) q f (λ p h _. omega (arith, same p))
            (λ p h _. h) ps s.projects_below;
      task_ids = s.task_ids;
      tasks_below = s.tasks_below;
      mappers = s.mappers;
      locks_below = s.locks_below;
      one_per_task = s.one_per_task;
      one_per_user = s.one_per_user;
      agree = s.agree;
      opened =
          All-map _ (λ l. All (IsOpened l) (update_where q f ps))
            (λ l h.
              All-update_where (λ p. IsOpened l p × (q p ≡ true → IsOpened l p → IsOpened l (f p)))
                (IsOpened l) q f (λ p k e. k.1 e k.0) (λ p k _. k.0) ps (All-zip _ _ ps h.0 h.1))
            ls (All-zip _ _ ls s.opened keep);
    }

    -- Deleting tasks, and locks with them.
    pub delete-IsSound :
        (p : TaskingTask → Bool) (q : TaskingLock → Bool)
        → IsSound ps (delete_where p ts) (delete_where q ls) np nt
    delete-IsSound p q = record {
      project_ids = s.project_ids;
      projects_below = s.projects_below;
      task_ids = Distinct-delete_where task_key p ts s.task_ids;
      tasks_below = All-delete_where (λ t. t.id < nt) p ts s.tasks_below;
      mappers = All-delete_where (λ t. has_mapper t.status t.last_mapper_id ≡ true) p ts s.mappers;
      locks_below = All-delete_where (IsFresh np nt) q ls s.locks_below;
      one_per_task =
          λ k. omega (arith, s.one_per_task k, length-filter-delete_where (locks_task k) q ls);
      one_per_user = λ k u.
          omega (arith, s.one_per_user k u, length-filter-delete_where (locks_for_user k u) q ls);
      agree =
          All-delete_where (λ l. All (Agrees l) (delete_where p ts)) q ls
            (All-map _ (λ l. All (Agrees l) (delete_where p ts))
              (λ l h. All-delete_where (Agrees l) p ts h) ls s.agree);
      opened = All-delete_where (λ l. All (IsOpened l) ps) q ls s.opened;
    }
