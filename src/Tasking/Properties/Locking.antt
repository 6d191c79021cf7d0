-- ===== src/Tasking/Properties/Locking.antt =====
-- Who gets a lock: `lock_task` of api/src/tasking/tasks/repository.py.
use workspaces_backend.Base.{
  ℕ, ◌≡◌, ◌≤◌, refl, Bool, true, false, not, ◌&&◌, ◌||◌, if◌then◌else◌, List, [], ◌∷◌, Option, none,
  some, arith, Bool-cases, inl, inr, filter, length, any, length-filter-append, length-filter_none,
  holds,
}
use workspaces_backend.Core.{
  Error, Result, ok, err, Keeps, keep_bind, keep_query, keep_raise_if, keep_rolling_back,
  keep_execute, keep_commit, keep_step, Result-cases,
}
use workspaces_backend.Security.UserInfo.{UserInfo}
use workspaces_backend.Tasking.Schema.{
  Db, TaskingTask, TaskingLock, TaskStatus, to_map, to_review, to_remap, completed, contributor,
  lead, validator, status_eq, RoleType, Datetime, Uuid, AuditEventType, Details,
}
use workspaces_backend.Tasking.Geometry.{Shapely}
use workspaces_backend.Tasking.Tasks.Queries.{locks_task, locks_for_user, audit}
use workspaces_backend.Tasking.Tasks.Locks.{
  lock_task, insert_lock, index_violation, eligible, lock_refusal, refuse,
}

-- The two unique indexes on active locks.
pub record OneActive (db : Db) : Type 0 where
  pub per_task : (k : ℕ) → length (filter (locks_task k) db.locks) ≤ 1
  pub per_user : (k : ℕ) (u : Uuid) → length (filter (locks_for_user k u) db.locks) ≤ 1

index_violation-ok :
    (l : TaskingLock) (ls : List TaskingLock)
    → index_violation l ls ≡ ok tt
    → (any (locks_task l.task_id) ls ≡ false)
      × (any (locks_for_user l.project_id l.user_auth_uid) ls ≡ false)
unfolding index_violation
index_violation-ok l ls h = elim (Bool-cases (any (locks_task l.task_id) ls)) [
  | inl e ↦ absurd (cc (rw e at h))
  | inr e ↦ elim (Bool-cases (any (locks_for_user l.project_id l.user_auth_uid) ls)) [
    | inl d ↦ absurd (cc (rw (e, d) at h))
    | inr d ↦ (e, d)
  ]
]

same_count :
    (k j : ℕ) (ls : List TaskingLock)
    → j ≡ k
    → length (filter (locks_task j) ls) ≡ length (filter (locks_task k) ls)
same_count k j ls e = rw e refl

same_count_user :
    (k u j v : ℕ) (ls : List TaskingLock)
    → j ≡ k
    → v ≡ u
    → length (filter (locks_for_user j v) ls) ≡ length (filter (locks_for_user k u) ls)
same_count_user k u j v ls e d = rw (e, d) refl

insert_lock-OneActive : (lock : ℕ → TaskingLock) → Keeps OneActive (insert_lock lock)
unfolding insert_lock
insert_lock-OneActive lock = keep_step _ λ s v c.
    elim (Result-cases (index_violation (lock s.working.next_lock_id) s.working.locks)) [
      | inr (e, h) ↦ rw (h, insert_lock) (v, c)
      | inl (a, h) ↦
          rw (h, insert_lock)
            (
              (let l = lock s.working.next_lock_id in
                  let free = index_violation-ok l s.working.locks h in
                  record {
                    per_task = λ k. ground (
                      arith,
                      v.per_task k,
                      length-filter-append (locks_task k) s.working.locks (l ∷ []),
                      length-filter_none (locks_task l.task_id) s.working.locks free.0,
                      same_count k l.task_id s.working.locks,
                    );
                    per_user = λ k u. ground (
                      arith,
                      v.per_user k u,
                      length-filter-append (locks_for_user k u) s.working.locks (l ∷ []),
                      length-filter_none (locks_for_user l.project_id l.user_auth_uid)
                          s.working.locks free.1,
                      same_count_user k u l.project_id l.user_auth_uid s.working.locks,
                    );
                  }),
              c,
            )
    ]

audit-OneActive :
    (e : AuditEventType) (i : ℕ) (t : Option ℕ) (user : ℕ) (d : Details) (db : Db)
    → OneActive db
    → OneActive (audit e i t user d db)
unfolding audit
audit-OneActive e i t user d db v = record { per_task = v.per_task; per_user = v.per_user }

-- Mutual exclusion under a race: whatever other transactions commit between the guards of an
-- acquisition and its insert, as long as they respect the unique indexes too, the acquisition
-- leaves at most one active lock for each task and for each user in a project, both when it
-- succeeds and when it is refused.
pub lock_task-OneActive :
    (lib : Shapely) (now : Datetime) (others : Db → Db) (w i n : ℕ) (user : UserInfo)
    → ((db : Db) → OneActive db → OneActive (others db))
    → Keeps OneActive (lock_task lib now others w i n user)
unfolding lock_task
lock_task-OneActive lib now others w i n user respect = keep_bind _ _ (keep_query _) λ project.
    keep_bind _ _ (keep_raise_if _ _) λ _. keep_bind _ _ (keep_query _) λ task.
      keep_bind _ _ (keep_query _) λ role. keep_bind _ _ (keep_query _) λ _.
        keep_bind _ _ (keep_query _) λ held. keep_bind _ _ (keep_raise_if _ _) λ _.
          keep_bind _ _ (keep_query _) λ elsewhere. keep_bind _ _ (keep_raise_if _ _) λ _.
            keep_bind _ _ (keep_step _ λ s v c. (respect s.working v, respect s.committed c)) λ _.
              keep_bind _ _
                (keep_rolling_back _ _ (
                  keep_bind _ _ (insert_lock-OneActive _) λ _.
                    keep_bind _ _ (keep_execute _ (audit-OneActive _ _ _ _ _)) λ _. keep_commit))
                λ _. keep_query _

abbrev is_role : RoleType → RoleType → Bool
is_role contributor contributor = true
is_role lead lead = true
is_role validator validator = true
is_role _ _ = false

-- The roles that docs/tasking-mvp/tasking-mvp.openapi.yaml names for a lock, by the task's status.
abbrev pub documented_roles : TaskStatus → List RoleType
documented_roles to_map = contributor ∷ lead ∷ []
documented_roles to_remap = contributor ∷ lead ∷ []
documented_roles to_review = validator ∷ lead ∷ []
documented_roles completed = []

-- The documented rule: a role that is named, and for a review not the last mapper.
abbrev pub may_lock : TaskingTask → Uuid → RoleType → Bool
may_lock t user r =
    any (is_role r) (documented_roles t.status)
    && not (status_eq t.status to_review && holds t.last_mapper_id user)

-- What the document does not name: a validator who maps.
abbrev pub is_mapping_validator : TaskingTask → RoleType → Bool
is_mapping_validator t r =
    is_role r validator && (status_eq t.status to_map || status_eq t.status to_remap)

abbrev pub has_role : (RoleType → Bool) → Option RoleType → Bool
has_role p none = false
has_role p (some r) = p r

abbrev pub is_ok : {A : Type 0} → Result A → Bool
is_ok (ok _) = true
is_ok (err _) = false

not_mapper :
    (mapper : Option Uuid) (user : Uuid) (e : Error)
    → is_ok (refuse (if holds mapper user then some e else none)) ≡ not (holds mapper user) || false
not_mapper mapper user e = elim (Bool-cases (holds mapper user)) [
  | inl h ↦ rw h refl
  | inr h ↦ rw h refl
]

refusal-documented :
    (st : TaskStatus) (r : RoleType) (t : TaskingTask) (user : Uuid)
    → t.status ≡ st
    → is_ok (refuse (lock_refusal st r t.last_mapper_id user))
      ≡ may_lock t user r || is_mapping_validator t r
unfolding lock_refusal
refusal-documented to_map contributor t user e = rw e refl
refusal-documented to_map lead t user e = rw e refl
refusal-documented to_map validator t user e = rw e refl
refusal-documented to_remap contributor t user e = rw e refl
refusal-documented to_remap lead t user e = rw e refl
refusal-documented to_remap validator t user e = rw e refl
refusal-documented completed contributor t user e = rw e refl
refusal-documented completed lead t user e = rw e refl
refusal-documented completed validator t user e = rw e refl
refusal-documented to_review contributor t user e = rw e refl
refusal-documented to_review lead t user e = rw e (not_mapper t.last_mapper_id user _)
refusal-documented to_review validator t user e = rw e (not_mapper t.last_mapper_id user _)

-- A caller is let through exactly when the documented rule lets the role lock the task or when a
-- validator asks for a task in `to_map` or `to_remap`, which the document does not allow; a caller
-- without a role never is.
pub eligible-documented :
    (t : TaskingTask) (user : Uuid) (role : Option RoleType)
    → is_ok (eligible t user role)
      ≡ has_role (λ r. may_lock t user r || is_mapping_validator t r) role
unfolding eligible
eligible-documented t user none = refl
eligible-documented t user (some r) = refusal-documented t.status r t user refl
