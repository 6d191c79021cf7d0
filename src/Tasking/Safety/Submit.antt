-- ===== src/Tasking/Safety/Submit.antt =====
-- Submitting against the invariant: `submit` and `submit_changeset` of
-- api/src/tasking/tasks/repository.py.
use workspaces_backend.Security.UserInfo.{UserInfo}
use workspaces_backend.Tasking.Safety.Writes.{
  update_task-Inv, set_expiry-Inv, audit-Inv, release_lock-Inv, audit-IsFree, release_lock-IsFree,
  found_mapped, audit-Found, release_lock-Found,
}
use workspaces_backend.Base.{
  refl, ℕ, ◌≡◌, true, Option, none, some, All, arith, Bool-cases, ◌==◌, inl, inr, ◌+◌, ◌∙◌, ap,
}
use workspaces_backend.Core.{
  Result, ok, Session, bind_query, bind_execute, end_pure, Ends, bind_known, bind_commit, end_query,
}
use workspaces_backend.Tasking.Schema.{
  Db, TaskingProject, TaskingTask, TaskingLock, TaskStatus, task_unlocked, release_details,
  auto_unlock, Datetime, hours, status_eq,
}
use workspaces_backend.Tasking.Tasks.Queries.{audit, locks_task, update_task, release_lock}
use workspaces_backend.Tasking.Geometry.{Shapely}
use workspaces_backend.Tasking.Tasks.Submit.{
  FeedbackInput, ActorRole, mapper, validator, actor_role, next_status, new_last_mapper,
  add_feedback, held_by, audit_change, renew, finish, submit, submit_changeset, SubmitRequest,
  add_changeset,
}
use workspaces_backend.Tasking.Invariant.{Inv, has_mapper}
use workspaces_backend.Tasking.Safety.Reads.{
  FoundTask, IsKept, get_task-Found, get_active_lock-only,
}

-- Everything up to the statements that finish a task: the tables are as they were read, and the
-- status that was computed suits the last mapper that is written with it.
record Ready (p user : ℕ) (task : TaskingTask) (l : TaskingLock) (actor : ActorRole)
    (r : Result TaskStatus × Session Db) : Type 0 where
  durable : Inv r.1.committed
  sound : Inv r.1.working
  found : FoundTask r.1.working p task
  only : All (λ m. locks_task task.id m ≡ true → m ≡ l) r.1.working.locks
  suits : (st : TaskStatus) → r.0 ≡ ok st → has_mapper st (new_last_mapper actor user task) ≡ true

-- The lock that passes the holder check is the one that was found.
pub held_by-eq-ok :
    (user : ℕ) (held : Option TaskingLock) (l : TaskingLock)
    → held_by user held ≡ ok l
    → held ≡ some l
unfolding held_by
held_by-eq-ok user none l h = absurd (cc h)
held_by-eq-ok user (some m) l h = elim (Bool-cases (m.user_auth_uid == user)) [
  | inl e ↦ cc (rw e at h)
  | inr e ↦ absurd (cc (rw e at h))
]

module _ (p user now : ℕ) (project : TaskingProject) (task : TaskingTask) (l : TaskingLock) where
  next_status-Ready :
      (actor : ActorRole) (feedback : Option FeedbackInput) (s : Session Db)
      → Inv s.committed
      → Inv s.working
      → FoundTask s.working p task
      → All (λ m. locks_task task.id m ≡ true → m ≡ l) s.working.locks
      → actor_role task.status ≡ ok actor
      → Ends (Ready p user task l actor) (next_status actor now p user project task feedback) s
  unfolding next_status actor_role add_feedback audit
  next_status-Ready mapper feedback s c v f only h =
      end_pure _
        (record { durable = c; sound = v; found = f; only = only; suits = λ st e. ground arith })
  next_status-Ready validator none s c v f only h = end_pure _ (record {
    durable = c;
    sound = v;
    found = f;
    only = only;
    suits = λ st e. ground (arith, f.mapped);
  })
  next_status-Ready validator (some b) s c v f only h =
      bind_query _ _
        (λ reason _. bind_execute _ _ (
          bind_execute _ _ (
            end_pure _ (record {
              durable = c;
              sound = v;
              found = record {
                in_project = f.in_project;
                only = f.only;
                below = f.below;
                mapped = f.mapped;
              };
              only = only;
              suits = λ st e. ground (arith, f.mapped);
            }))))
        (λ e. record {
          durable = c;
          sound = v;
          found = f;
          only = only;
          suits = λ st k. absurd (cc k);
        })

  abbrev change : ActorRole → TaskStatus → TaskingTask → TaskingTask
  change actor st t = record t {
    status = st;
    last_mapper_id = new_last_mapper actor user task;
    updated_at = now;
  }

  -- The tables after the UPDATE statements.
  abbrev Finished : ActorRole → TaskStatus → Db → Type 0
  Finished actor st db = Inv (
      audit_change task p user st (
        update_task task.id (change actor st) (
          audit task_unlocked p (some task.id) user (release_details task.task_number auto_unlock)
            (release_lock l.id now auto_unlock db))))

  Finished-Inv :
      (actor : ActorRole) (st : TaskStatus) (s : Session Db)
      → Ready p user task l actor (ok st, s)
      → Finished actor st s.working
  unfolding audit_change
  Finished-Inv actor st s r = elim (Bool-cases (status_eq st task.status)) [
    | inl e ↦ rw e after
    | inr e ↦ rw e (audit-Inv _ _ _ _ _ _ after)
  ]
    where
      released : Db
      released =
          audit task_unlocked p (some task.id) user (release_details task.task_number auto_unlock)
            (release_lock l.id now auto_unlock s.working)

      after : Inv (update_task task.id (change actor st) released)
      after =
          update_task-Inv task.id (change actor st) released
            (audit-Inv _ _ _ _ _ _ (release_lock-Inv l.id now auto_unlock s.working r.sound))
            (audit-IsFree task.id _ _ _ _ _ _
              (release_lock-IsFree task.id l now auto_unlock s.working r.only))
            (λ t. refl)
            (found_mapped p released task (change actor st)
              (audit-Found p _ _ _ _ _ _ task
                (release_lock-Found p l.id now auto_unlock s.working task r.found))
              (r.suits st refl))

  module _ (lib : Shapely) (n : ℕ) where
    renew-IsKept :
        (s : Session Db) → Inv s.working → Ends IsKept (renew lib now p n user project task l) s
    unfolding renew audit
    renew-IsKept s v =
        let after = set_expiry-Inv l.id (now + hours project.lock_timeout_hours) s.working v in
        bind_execute _ _ (
          bind_execute _ _
            (bind_commit _ (bind_query _ _ (λ _ _. end_query _ (λ _. after)) (λ e. after))))

    finish-IsKept :
        (actor : ActorRole) (feedback : Option FeedbackInput) (s : Session Db)
        → Inv s.committed
        → Inv s.working
        → FoundTask s.working p task
        → All (λ m. locks_task task.id m ≡ true → m ≡ l) s.working.locks
        → actor_role task.status ≡ ok actor
        → Ends IsKept (finish lib now p n user project task l actor feedback) s
    unfolding finish
    finish-IsKept actor feedback s c v f only h =
        bind_known _ _ (next_status-Ready actor feedback s c v f only h)
          (λ st s' r.
            let after = Finished-Inv actor st s' r in
            bind_execute _ _ (
              bind_execute _ _ (
                bind_execute _ _ (
                  bind_execute _ _ (
                    bind_commit _
                      (bind_query _ _ (λ _ _. end_query _ (λ _. after)) (λ e. after)))))))
          (λ e s' r. r.durable)

module _ (lib : Shapely) (now : Datetime) (w i n : ℕ) (user : UserInfo) where
  pub submit-IsKept :
      (body : SubmitRequest) (s : Session Db)
      → Inv s.working
      → Inv s.committed
      → Ends IsKept (submit lib now w i n user body) s
  unfolding submit held_by
  submit-IsKept body s v c =
      bind_query _ _
        (λ project hp.
          bind_query _ _
            (λ task ht.
              bind_query _ _
                (λ held hh.
                  bind_query _ _
                    (λ l hl.
                      bind_query _ _
                        (λ actor ha. elim (Bool-cases body.done) [
                          | inl e ↦ rw e (
                              finish-IsKept i user.user_uuid now project task l lib n actor
                                body.feedback s c v (get_task-Found i n s.working task v ht)
                                (get_active_lock-only task.id s.working l
                                  (hh ∙ ap ok (held_by-eq-ok user.user_uuid held l hl)))
                                ha)
                          | inr e ↦
                              rw e (renew-IsKept i user.user_uuid now project task l lib n s v)
                        ])
                        (λ e. c))
                    (λ e. c))
                (λ e. c))
            (λ e. c))
        (λ e. c)

  pub submit_changeset-IsKept :
      (changeset : ℕ) (s : Session Db)
      → Inv s.working
      → Inv s.committed
      → Ends IsKept (submit_changeset now w i n user changeset) s
  unfolding submit_changeset audit add_changeset
  submit_changeset-IsKept changeset s v c =
      bind_query _ _
        (λ project _.
          bind_query _ _
            (λ task _.
              bind_query _ _
                (λ held _.
                  bind_query _ _
                    (λ l _.
                      bind_query _ _
                        (λ row _.
                          bind_execute _ _ (bind_execute _ _ (bind_commit _ (end_pure _ v))))
                        (λ e. c))
                    (λ e. c))
                (λ e. c))
            (λ e. c))
        (λ e. c)
