-- ===== src/Tasking/Properties/Releasing.antt =====
-- Who releases a lock: `unlock_task` of api/src/tasking/tasks/repository.py.
use workspaces_backend.Base.{
  ℕ, ◌≡◌, ◌⊎◌, refl, ap, ◌∙◌, Bool, true, false, Option, none, some, arith, Bool-cases, inl, inr,
  ◌==◌,
}
use workspaces_backend.Core.{ok, Error, Ends, bind_query, bind_found, bind_execute, end_commit}
use workspaces_backend.Security.UserInfo.{UserInfo, is_workspace_lead}
use workspaces_backend.Tasking.Schema.{Db, TaskingTask, TaskingLock, Datetime, LockReleaseReason}
use workspaces_backend.Tasking.Tasks.Queries.{get_task, get_active_lock}
use workspaces_backend.Tasking.Tasks.Locks.{unlock_task, release_reason, lock_or}
use workspaces_backend.Tasking.Service.{opened, after}
use workspaces_backend.Tasking.Safety.Reads.{get_active_lock-only}
use workspaces_backend.Tasking.Safety.Writes.{IsFree, release_lock-IsFree, audit-IsFree}

lock_or-ok :
    (e : Error) (held : Option TaskingLock) (l : TaskingLock)
    → lock_or e held ≡ ok l
    → held ≡ some l
lock_or-ok e none l h = absurd (cc h)
lock_or-ok e (some m) l h = cc h

-- Who may release a lock: with force a workspace LEAD, else the holder.
abbrev pub MayRelease : Bool → UserInfo → ℕ → TaskingLock → Type 0
MayRelease force user w l =
    ((force ≡ true) × (is_workspace_lead user w ≡ true))
    ⊎ ((force ≡ false) × (l.user_auth_uid ≡ user.user_uuid))

release_reason-MayRelease :
    (force : Bool) (user : UserInfo) (w : ℕ) (l : TaskingLock) (r : LockReleaseReason)
    → release_reason force user w l ≡ ok r
    → MayRelease force user w l
unfolding release_reason
release_reason-MayRelease true user w l r h = elim (Bool-cases (is_workspace_lead user w)) [
  | inl e ↦ inl (refl, e)
  | inr e ↦ absurd (cc (rw e at h))
]
release_reason-MayRelease false user w l r h =
    elim (Bool-cases (l.user_auth_uid == user.user_uuid)) [
      | inl e ↦ inr (refl, ground arith)
      | inr e ↦ absurd (cc (rw e at h))
    ]

module _ (now : Datetime) (w i n : ℕ) (user : UserInfo) (force : Bool) where
  -- A release that has gone through: the task had an active lock that the caller may release,
  -- and has none now.
  abbrev pub IsReleased : TaskingTask → Db → Db → Type 0
  IsReleased task before db =
      ((l : TaskingLock) × (get_active_lock task.id before ≡ ok (some l))
        × MayRelease force user w l)
      × IsFree task.id db

  unlock_task-Ends :
      (db : Db) (task : TaskingTask)
      → get_task i n db ≡ ok task
      → Ends
          (λ r. r.0 ≡ ok tt → IsReleased task db r.1.committed)
          (unlock_task now w i n user force)
          (opened db)
  unfolding unlock_task
  unlock_task-Ends db task ht =
      bind_query _ _
        (λ _ _. bind_found _ _ ht (
          bind_query _ _
            (λ held hh.
              bind_query _ _
                (λ l hl.
                  bind_query _ _
                    (λ reason hr.
                      let found = hh ∙ ap ok (lock_or-ok _ held l hl) in
                      bind_execute _ _ (
                        bind_execute _ _ (
                          end_commit (λ _. (
                            (l, found, release_reason-MayRelease force user w l reason hr),
                            audit-IsFree task.id _ _ _ _ _ _ (
                                release_lock-IsFree task.id l now reason db
                                  (get_active_lock-only task.id db l found)),
                          )))))
                    (λ e h. absurd (cc h)))
                (λ e h. absurd (cc h)))
            (λ e h. absurd (cc h))))
        (λ e h. absurd (cc h))

  -- Releasing a lock takes the holder, or a workspace LEAD who forces it: where `unlock_task`
  -- succeeds on a task, the task had an active lock that the caller may release in this way, and
  -- no active lock is left on it.
  pub unlock_task-IsReleased :
      (db : Db) (task : TaskingTask)
      → get_task i n db ≡ ok task
      → (unlock_task now w i n user force (opened db)).0 ≡ ok tt
      → IsReleased task db (after (unlock_task now w i n user force) db)
  unlock_task-IsReleased db task ht h = (unlock_task-Ends db task ht).at h
