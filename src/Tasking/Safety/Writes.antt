-- ===== src/Tasking/Safety/Writes.antt =====
-- The statements of api/src/tasking/tasks/repository.py that change locks and tasks, one by one.
use workspaces_backend.Base.{
  ℕ, ◌≡◌, refl, true, false, List, [], ◌∷◌, some, any, All, All-map, Bool-cases, inl, inr,
  update_where, ◌==◌, arith, ==_refl, ap, Option,
}
use workspaces_backend.Tasking.Safety.Reads.{FoundTask}
use workspaces_backend.Tasking.Schema.{
  Db, TaskingTask, TaskingLock, LockReleaseReason, AuditEventType, Details,
}
use workspaces_backend.Tasking.Tasks.Queries.{
  locks_task, release_lock, set_expiry, update_task, audit,
}
use workspaces_backend.Tasking.Invariant.{
  Inv, has_mapper, update_locks-IsSound, update_tasks-IsSound,
}

-- No active lock is held on a task.
abbrev pub IsFree : ℕ → Db → Type 0
IsFree task_id db = any (locks_task task_id) db.locks ≡ false

pub release_lock-Inv :
    (i now : ℕ) (r : LockReleaseReason) (db : Db) → Inv db → Inv (release_lock i now r db)
unfolding release_lock
release_lock-Inv i now r db v =
    update_locks-IsSound v (λ l. l.id == i)
      (λ l. record l { released_at = some now; release_reason = some r })
      (record {
        same_task = λ l. refl;
        same_project = λ l. refl;
        same_user = λ l. refl;
        same_status = λ l. refl;
        was_active = λ l h. absurd (cc h);
      })

pub set_expiry-Inv : (i e : ℕ) (db : Db) → Inv db → Inv (set_expiry i e db)
unfolding set_expiry
set_expiry-Inv i e db v =
    update_locks-IsSound v (λ l. l.id == i) (λ l. record l { expires_at = e })
      (record {
        same_task = λ l. refl;
        same_project = λ l. refl;
        same_user = λ l. refl;
        same_status = λ l. refl;
        was_active = λ l h. h;
      })

none_locks :
    (k : ℕ) (ls : List TaskingLock)
    → any (locks_task k) ls ≡ false
    → All (λ l. locks_task k l ≡ false) ls
none_locks k [] h = tt
none_locks k (l ∷ ls) h = (ground arith, none_locks k ls (ground arith))

-- A change of a task that nobody holds.
pub update_task-Inv :
    (k : ℕ) (g : TaskingTask → TaskingTask) (db : Db)
    → Inv db
    → IsFree k db
    → ((t : TaskingTask) → (g t).id ≡ t.id)
    → All (λ t. t.id ≡ k → has_mapper (g t).status (g t).last_mapper_id ≡ true) db.tasks
    → Inv (update_task k g db)
unfolding update_task
update_task-Inv k g db v free same mapped =
    update_tasks-IsSound v (λ t. t.id == k) g same
      (All-map _ _ (λ t h e. h (ground arith)) db.tasks mapped)
      (All-map (λ l. locks_task k l ≡ false) _
        (λ l unlocked. All-map _ _ (λ t _ e a same_id. ground arith) db.tasks v.tasks_below)
        db.locks (none_locks k db.locks free))

-- Releasing the one active lock on a task leaves the task free.
pub release_lock-IsFree :
    (k : ℕ) (l : TaskingLock) (now : ℕ) (r : LockReleaseReason) (db : Db)
    → All (λ m. locks_task k m ≡ true → m ≡ l) db.locks
    → IsFree k (release_lock l.id now r db)
unfolding release_lock
release_lock-IsFree k l now r db only = go db.locks only
  where
    released : TaskingLock → TaskingLock
    released m = record m { released_at = some now; release_reason = some r }

    go :
        (ls : List TaskingLock)
        → All (λ m. locks_task k m ≡ true → m ≡ l) ls
        → any (locks_task k) (update_where (λ m. m.id == l.id) released ls) ≡ false
    go [] h = refl
    go (m ∷ ls) h = elim (Bool-cases (m.id == l.id)) [
      | inl e ↦ rw e (ground (arith, go ls h.1))
      | inr e ↦ elim (Bool-cases (locks_task k m)) [
        | inl a ↦ absurd (cc (e, ap (λ (x : TaskingLock). x.id == l.id) (h.0 a), ==_refl l.id))
        | inr a ↦ rw (e, a) (go ls h.1)
      ]
    ]

-- A row that the read has found is the only one with its id.
pub found_mapped :
    (p : ℕ) (db : Db) (task : TaskingTask) (g : TaskingTask → TaskingTask)
    → FoundTask db p task
    → has_mapper (g task).status (g task).last_mapper_id ≡ true
    → All (λ t. t.id ≡ task.id → has_mapper (g t).status (g t).last_mapper_id ≡ true) db.tasks
found_mapped p db task g f h =
    All-map _ (λ t. t.id ≡ task.id → has_mapper (g t).status (g t).last_mapper_id ≡ true)
      (λ t same e. rw (same e) h) db.tasks f.only

pub release_lock-Found :
    (p i now : ℕ) (r : LockReleaseReason) (db : Db) (task : TaskingTask)
    → FoundTask db p task
    → FoundTask (release_lock i now r db) p task
unfolding release_lock
release_lock-Found p i now r db task f = record {
  in_project = f.in_project;
  only = f.only;
  below = f.below;
  mapped = f.mapped;
}

pub audit-Found :
    (p : ℕ) (e : AuditEventType) (i : ℕ) (t : Option ℕ) (user : ℕ) (d : Details) (db : Db)
    (task : TaskingTask)
    → FoundTask db p task
    → FoundTask (audit e i t user d db) p task
unfolding audit
audit-Found p e i t user d db task f = record {
  in_project = f.in_project;
  only = f.only;
  below = f.below;
  mapped = f.mapped;
}

pub audit-Inv :
    (e : AuditEventType) (i : ℕ) (t : Option ℕ) (user : ℕ) (d : Details) (db : Db)
    → Inv db
    → Inv (audit e i t user d db)
unfolding audit
audit-Inv e i t user d db v = v

pub audit-IsFree :
    (k : ℕ) (e : AuditEventType) (i : ℕ) (t : Option ℕ) (user : ℕ) (d : Details) (db : Db)
    → IsFree k db
    → IsFree k (audit e i t user d db)
unfolding audit
audit-IsFree k e i t user d db h = h
