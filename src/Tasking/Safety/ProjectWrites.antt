-- ===== src/Tasking/Safety/ProjectWrites.antt =====
-- The statements of api/src/tasking/projects/repository.py that change projects, locks and tasks,
-- one by one.
use workspaces_backend.Base.{
  ℕ, ◌≡◌, refl, ◌∙◌, true, false, List, [], ◌∷◌, some, any, All, All-map, All-zip, Bool-cases, inl,
  inr, update_where, ◌==◌, arith, none,
}
use workspaces_backend.Tasking.Schema.{Db, TaskingProject, TaskingLock, open_, to_map, reset}
use workspaces_backend.Tasking.Tasks.Queries.{is_active}
use workspaces_backend.Tasking.Projects.Queries.{update_project, is_active_in, delete_tasks}
use workspaces_backend.Tasking.Projects.Lifecycle.{
  release_all, rewind_tasks, flag_audit, is_begun_in,
}
use workspaces_backend.Tasking.Invariant.{
  Inv, IsOpened, Agrees, update_locks-IsSound, update_tasks-IsSound, update_projects-IsSound,
  delete-IsSound,
}

-- No active lock is held in a project.
abbrev pub IsIdle : ℕ → Db → Type 0
IsIdle project_id db = any (is_active_in project_id) db.locks ≡ false

-- An update of a project that leaves an open one open.
pub update_project-Inv :
    (k : ℕ) (f : TaskingProject → TaskingProject) (db : Db)
    → Inv db
    → ((p : TaskingProject) → (f p).id ≡ p.id)
    → ((p : TaskingProject) → (f p).deleted_at ≡ p.deleted_at)
    → ((p : TaskingProject) → p.status ≡ open_ → (f p).status ≡ open_)
    → Inv (update_project k f db)
unfolding update_project
update_project-Inv k f db v same kept stays =
    update_projects-IsSound v (λ p. p.id == k) f same
      (All-map (λ l. All (IsOpened l) db.projects)
        (λ l. All (λ p. (p.id == k) ≡ true → IsOpened l p → IsOpened l (f p)) db.projects)
        (λ l h.
          All-map (IsOpened l) _
            (λ p o e old a d. let was = old a (d ∙ same p) in (stays p was.0, kept p ∙ was.1))
            db.projects h)
        db.locks v.opened)

idle_locks :
    (k : ℕ) (ls : List TaskingLock)
    → any (is_active_in k) ls ≡ false
    → All (λ l. is_active_in k l ≡ false) ls
idle_locks k [] h = tt
idle_locks k (l ∷ ls) h = (ground arith, idle_locks k ls (ground arith))

-- Any update of a project that nobody works in.
pub update_idle_project-Inv :
    (k : ℕ) (f : TaskingProject → TaskingProject) (db : Db)
    → Inv db
    → ((p : TaskingProject) → (f p).id ≡ p.id)
    → IsIdle k db
    → Inv (update_project k f db)
unfolding update_project
update_idle_project-Inv k f db v same idle =
    update_projects-IsSound v (λ p. p.id == k) f same
      (All-map (λ l. All (IsOpened l) db.projects × (is_active_in k l ≡ false))
        (λ l. All (λ p. (p.id == k) ≡ true → IsOpened l p → IsOpened l (f p)) db.projects)
        (λ l h.
          All-map (IsOpened l) _ (λ p o e old a d. absurd (ground (arith, h.1, same p))) db.projects
            h.0)
        db.locks (All-zip _ _ db.locks v.opened (idle_locks k db.locks idle)))

pub release_all-Inv : (k now : ℕ) (db : Db) → Inv db → Inv (release_all k now db)
unfolding release_all
release_all-Inv k now db v =
    update_locks-IsSound v (is_active_in k)
      (λ l. record l { released_at = some now; release_reason = some reset })
      (record {
        same_task = λ l. refl;
        same_project = λ l. refl;
        same_user = λ l. refl;
        same_status = λ l. refl;
        was_active = λ l h. absurd (cc h);
      })

pub release_all-IsIdle : (k now : ℕ) (db : Db) → IsIdle k (release_all k now db)
unfolding release_all
release_all-IsIdle k now db = go db.locks
  where
    released : TaskingLock → TaskingLock
    released l = record l { released_at = some now; release_reason = some reset }

    go :
        (ls : List TaskingLock)
        → any (is_active_in k) (update_where (is_active_in k) released ls) ≡ false
    go [] = refl
    go (l ∷ ls) = elim (Bool-cases (is_active_in k l)) [
      | inl e ↦ rw e (ground (arith, go ls))
      | inr e ↦ rw (e, e) (go ls)
    ]

-- Tasks of a project that nobody works in go back to `to_map`.
pub rewind_tasks-Inv : (k now : ℕ) (db : Db) → Inv db → IsIdle k db → Inv (rewind_tasks k now db)
unfolding rewind_tasks
rewind_tasks-Inv k now db v idle =
    update_tasks-IsSound v (is_begun_in k)
      (λ t. record t { status = to_map; last_mapper_id = none; updated_at = now }) (λ t. refl)
      (All-map _ _ (λ t _ e. refl) db.tasks v.tasks_below)
      (All-map (λ l. All (Agrees l) db.tasks × (is_active_in k l ≡ false))
        (λ l.
          All (λ t. is_begun_in k t ≡ true → is_active l ≡ true → l.task_id ≡ t.id → ⊥) db.tasks)
        (λ l h.
          All-map (Agrees l) _
            (λ t agree e a d. let in_project = (agree a d).0 in ground (arith, h.1, in_project))
            db.tasks h.0)
        db.locks (All-zip _ _ db.locks v.agree (idle_locks k db.locks idle)))

pub delete_tasks-Inv : (k : ℕ) (db : Db) → Inv db → Inv (delete_tasks k db)
unfolding delete_tasks
delete_tasks-Inv k db v = delete-IsSound v _ _

pub flag_audit-Inv : (k : ℕ) (db : Db) → Inv db → Inv (flag_audit k db)
unfolding flag_audit
flag_audit-Inv k db v = v
