-- ===== src/Tasking/Safety/Reads.antt =====
-- What a successful read of api/src/tasking/tasks/repository.py says of the tables.
use workspaces_backend.Base.{
  ℕ, ◌≡◌, refl, Bool, true, false, List, [], ◌∷◌, Option, none, some, is_some, filter, any, All,
  same_row, filter-head, filter_single, inl, inr, arith, ◌<◌, sym, ◌∙◌,
}
use workspaces_backend.Core.{
  Result, ok, Session, scalar_one_or_raise-eq-ok, scalar_one_or_none-eq-ok,
}
use workspaces_backend.Tasking.Schema.{Db, TaskingProject, TaskingTask, TaskingLock}
use workspaces_backend.Tasking.Tasks.Queries.{
  get_project, get_task, get_active_lock, get_active_lock_for_user_in_project, is_project, is_task,
  locks_task, locks_for_user,
}
use workspaces_backend.Tasking.Invariant.{
  Inv, project_key, task_key, has_mapper, is_workable, Agrees,
}

-- The committed tables satisfy the invariant.
abbrev pub IsKept : {A : Type 0} → Result A × Session Db → Type 0
IsKept r = Inv r.1.committed

pub record FoundTask (db : Db) (project_id : ℕ) (t : TaskingTask) : Type 0 where
  pub in_project : t.project_id ≡ project_id
  pub only : All (λ u. u.id ≡ t.id → u ≡ t) db.tasks
  pub below : t.id < db.next_task_id
  pub mapped : has_mapper t.status t.last_mapper_id ≡ true

pub get_task-Found :
    (p n : ℕ) (db : Db) (t : TaskingTask) → Inv db → get_task p n db ≡ ok t → FoundTask db p t
unfolding get_task
get_task-Found p n db t v h =
    let e = scalar_one_or_raise-eq-ok _ (filter (is_task p n) db.tasks) t h in
    let hit =
      filter-head (λ u. has_mapper u.status u.last_mapper_id ≡ true) (is_task p n) db.tasks [] t e
        v.mappers in
    record {
      in_project = ground (arith, hit.1);
      only = same_row task_key (is_task p n) t [] db.tasks e v.task_ids;
      below =
          (filter-head (λ u. u.id < db.next_task_id) (is_task p n) db.tasks [] t e v.tasks_below).0;
      mapped = hit.0;
    }

pub record FoundProject (db : Db) (project_id : ℕ) (p : TaskingProject) : Type 0 where
  pub same_id : p.id ≡ project_id
  pub not_deleted : p.deleted_at ≡ none
  pub below : p.id < db.next_project_id
  pub only : All (λ q. q.id ≡ p.id → q ≡ p) db.projects

pub get_project-Found :
    (w i : ℕ) (db : Db) (p : TaskingProject)
    → Inv db
    → get_project w i db ≡ ok p
    → FoundProject db i p
unfolding get_project
get_project-Found w i db p v h =
    let e = scalar_one_or_raise-eq-ok _ (filter (is_project w i) db.projects) p h in
    let hit =
      filter-head (λ q. q.id < db.next_project_id) (is_project w i) db.projects [] p e
        v.projects_below in
    record {
      same_id = ground (arith, hit.1);
      not_deleted = ground (arith, hit.1);
      below = hit.0;
      only = same_row project_key (is_project w i) p [] db.projects e v.project_ids;
    }

nothing_selected {ℓ} :
    {A : Type ℓ} (q : A → Bool) (xs : List A) → filter q xs ≡ [] → any q xs ≡ false
nothing_selected q [] h = refl
nothing_selected q (x ∷ xs) h = ground (arith, nothing_selected q xs)

-- No active lock was found.
pub get_active_lock-free :
    (k : ℕ) (db : Db) (o : Option TaskingLock)
    → get_active_lock k db ≡ ok o
    → is_some o ≡ false
    → any (locks_task k) db.locks ≡ false
unfolding get_active_lock
get_active_lock-free k db o h e =
    elim (scalar_one_or_none-eq-ok (filter (locks_task k) db.locks) o h) [
      | inl (empty, _) ↦ nothing_selected (locks_task k) db.locks empty
      | inr (l, _, found) ↦ absurd (cc (found, e))
    ]

-- An active lock was found: every active lock on the task is that one.
pub get_active_lock-only :
    (k : ℕ) (db : Db) (l : TaskingLock)
    → get_active_lock k db ≡ ok (some l)
    → All (λ m. locks_task k m ≡ true → m ≡ l) db.locks
unfolding get_active_lock
get_active_lock-only k db l h =
    elim (scalar_one_or_none-eq-ok (filter (locks_task k) db.locks) (some l) h) [
      | inl (_, none_found) ↦ absurd (cc)
      | inr (m, single, found) ↦ filter_single (locks_task k) db.locks l (cc)
    ]

pub get_active_lock_for_user-free :
    (p u : ℕ) (db : Db) (o : Option TaskingLock)
    → get_active_lock_for_user_in_project p u db ≡ ok o
    → is_some o ≡ false
    → any (locks_for_user p u) db.locks ≡ false
unfolding get_active_lock_for_user_in_project
get_active_lock_for_user-free p u db o h e =
    elim (scalar_one_or_none-eq-ok (filter (locks_for_user p u) db.locks) o h) [
      | inl (empty, _) ↦ nothing_selected (locks_for_user p u) db.locks empty
      | inr (l, _, found) ↦ absurd (cc (found, e))
    ]

-- The holder of the active lock on a task may work on the task as it now stands.
pub held-Agrees :
    (p n : ℕ) (db : Db) (t : TaskingTask) (l : TaskingLock)
    → Inv db
    → get_task p n db ≡ ok t
    → get_active_lock t.id db ≡ ok (some l)
    → (t.status ≡ l.task_status_at_lock)
      × (is_workable t.status t.last_mapper_id l.user_auth_uid ≡ true)
      × (l.project_id ≡ p)
unfolding get_task get_active_lock
held-Agrees p n db t l v ht hl =
    elim (scalar_one_or_none-eq-ok (filter (locks_task t.id) db.locks) (some l) hl) [
      | inl (_, none_found) ↦ absurd (cc)
      | inr (m, single, found) ↦
          let is_l : filter (locks_task t.id) db.locks ≡ l ∷ [] = cc in
          let lock =
            filter-head (λ m. All (Agrees m) db.tasks) (locks_task t.id) db.locks [] l is_l
              v.agree in
          let one = scalar_one_or_raise-eq-ok _ (filter (is_task p n) db.tasks) t ht in
          let task = filter-head (Agrees l) (is_task p n) db.tasks [] t one lock.0 in
          let agree = task.0 (ground (arith, lock.1)) (ground (arith, lock.1)) in
          (agree.1, agree.2, sym agree.0 ∙ ground (arith, task.1))
    ]
