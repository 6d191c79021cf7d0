-- ===== src/Tasking/Properties/Frames.antt =====
-- What the work on tasks (api/src/tasking/tasks/repository.py) and on roles
-- (api/src/tasking/projects/repository.py) does to the rows of the projects.
use workspaces_backend.Base.{
  ℕ, ◌≡◌, refl, Bool, List, [], ◌∷◌, Option, none, some, any, Bool-cases, inl, inr,
}
use workspaces_backend.Core.{
  Action, Keeps, keep_bind, keep_query, keep_raise_if, keep_rolling_back, keep_commit, keep_execute,
  keep_step, keep_pure, keep_if, Result-cases,
}
use workspaces_backend.Security.UserInfo.{UserInfo}
use workspaces_backend.Tasking.Schema.{
  Db, TaskingProject, TaskingTask, TaskingLock, TaskStatus, RoleType, Datetime, Uuid,
  TaskingProjectRole, status_eq,
}
use workspaces_backend.Tasking.Geometry.{Shapely}
use workspaces_backend.Tasking.Tasks.Queries.{
  audit, release_lock, update_task, set_expiry, is_role_of,
}
use workspaces_backend.Tasking.Tasks.Locks.{
  lock_task, insert_lock, index_violation, unlock_task, extend_lock,
}
use workspaces_backend.Tasking.Tasks.Submit.{
  ActorRole, mapper, validator, FeedbackInput, SubmitRequest, submit, renew, finish, next_status,
  add_feedback, audit_change, submit_changeset, add_changeset,
}
use workspaces_backend.Tasking.Projects.Provision.{
  Members, is_user, is_member, insert_user, insert_members, member_of, provision_users_from_tdei,
  TdeiProjectGroupUser,
}
use workspaces_backend.Tasking.Projects.Roles.{
  add_role, update_role, upsert_role, remove_role, provision_missing, insert_role, upsert_role_row,
  set_role, delete_role,
}
use workspaces_backend.Tasking.Service.{after, opened}

-- The projects are the given ones.
abbrev pub Projects : List TaskingProject → Db → Type 0
Projects ps db = db.projects ≡ ps

pub after-Projects :
    {A : Type 0} (m : Action Db A) (db : Db)
    → Keeps (Projects db.projects) m
    → (after m db).projects ≡ db.projects
after-Projects m db h = ((h.keeps (opened db) refl refl).at).1

module _ (ps : List TaskingProject) where
  insert_lock-Projects : (lock : ℕ → TaskingLock) → Keeps (Projects ps) (insert_lock lock)
  unfolding insert_lock
  insert_lock-Projects lock = keep_step _ λ s v c.
      elim (Result-cases (index_violation (lock s.working.next_lock_id) s.working.locks)) [
        | inr (e, h) ↦ rw (h, insert_lock) (v, c)
        | inl (a, h) ↦ rw (h, insert_lock) (v, c)
      ]

  insert_role-Projects : (r : TaskingProjectRole) → Keeps (Projects ps) (insert_role r)
  unfolding insert_role
  insert_role-Projects r = keep_step _ λ s v c.
      elim (Bool-cases (any (is_user r.user_auth_uid) s.working.users)) [
        | inr e ↦ rw (e, insert_role) (v, c)
        | inl e ↦
            elim (Bool-cases
              (any (is_role_of r.project_id r.user_auth_uid) s.working.project_roles)) [
                | inl d ↦ rw (e, d, insert_role) (v, c)
                | inr d ↦ rw (e, d, insert_role) (v, c)
              ]
      ]

  upsert_role_row-Projects : (r : TaskingProjectRole) → Keeps (Projects ps) (upsert_role_row r)
  unfolding upsert_role_row set_role
  upsert_role_row-Projects r = keep_step _ λ s v c.
      elim (Bool-cases (any (is_role_of r.project_id r.user_auth_uid) s.working.project_roles)) [
        | inl e ↦ rw (e, upsert_role_row) (v, c)
        | inr e ↦ rw (e, upsert_role_row) (((insert_role-Projects r).keeps s v c).at)
      ]

  insert_members-Projects :
      (uids : List Uuid) (ms : List TdeiProjectGroupUser) (db : Db)
      → Projects ps db
      → Projects ps (insert_members uids ms db)
  unfolding insert_members insert_user
  insert_members-Projects [] ms db v = v
  insert_members-Projects (u ∷ us) ms db v = insert_members-Projects us ms _ (go (member_of u ms))
    where
      go :
          (o : Option TdeiProjectGroupUser)
          → Projects ps (elim o [ none ↦ db | some m ↦ insert_user m db ])
      go none = v
      go (some m) = v

  provision_missing-Projects :
      (members : Members) (missing : List Uuid)
      → Keeps (Projects ps) (provision_missing members missing)
  unfolding provision_missing provision_users_from_tdei
  provision_missing-Projects members [] = keep_pure _
  provision_missing-Projects members (u ∷ us) = keep_bind _ _ (keep_query _) λ found.
      keep_bind _ _ (keep_execute _ (insert_members-Projects (u ∷ us) found)) λ _.
        keep_bind _ _ (keep_if (any (is_member found) (u ∷ us)) _ _ keep_commit (keep_pure tt))
          λ _. keep_pure _

  next_status-Projects :
      (actor : ActorRole) (now : Datetime) (i : ℕ) (user : Uuid) (project : TaskingProject)
      (task : TaskingTask) (feedback : Option FeedbackInput)
      → Keeps (Projects ps) (next_status actor now i user project task feedback)
  unfolding next_status add_feedback audit
  next_status-Projects mapper now i user project task feedback = keep_pure _
  next_status-Projects validator now i user project task none = keep_pure _
  next_status-Projects validator now i user project task (some f) =
      keep_bind _ _ (keep_query _) λ _.
        keep_bind _ _ (keep_execute _ (λ db h. h))
          λ _. keep_bind _ _ (keep_execute _ (λ db h. h)) λ _. keep_pure _

  audit_change-Projects :
      (task : TaskingTask) (i : ℕ) (user : Uuid) (st : TaskStatus) (db : Db)
      → Projects ps db
      → Projects ps (audit_change task i user st db)
  unfolding audit_change audit
  audit_change-Projects task i user st db v = elim (Bool-cases (status_eq st task.status)) [
    | inl e ↦ rw (e, audit_change) v
    | inr e ↦ rw (e, audit_change) v
  ]

  module _ (lib : Shapely) (now : Datetime) (w i n : ℕ) (user : UserInfo) where
    pub lock_task-Projects : Keeps (Projects ps) (lock_task lib now (λ db. db) w i n user)
    unfolding lock_task audit
    lock_task-Projects = keep_bind _ _ (keep_query _) λ _. keep_bind _ _ (keep_raise_if _ _) λ _.
        keep_bind _ _ (keep_query _) λ _. keep_bind _ _ (keep_query _) λ _.
          keep_bind _ _ (keep_query _) λ _. keep_bind _ _ (keep_query _) λ _.
            keep_bind _ _ (keep_raise_if _ _) λ _. keep_bind _ _ (keep_query _) λ _.
              keep_bind _ _ (keep_raise_if _ _) λ _.
                keep_bind _ _ (keep_step _ λ s v c. (v, c)) λ _.
                  keep_bind _ _
                    (keep_rolling_back _ _ (
                      keep_bind _ _ (insert_lock-Projects _)
                        λ _. keep_bind _ _ (keep_execute _ (λ db h. h)) λ _. keep_commit))
                    λ _. keep_query _

    pub unlock_task-Projects :
        (force : Bool) → Keeps (Projects ps) (unlock_task now w i n user force)
    unfolding unlock_task audit release_lock
    unlock_task-Projects force = keep_bind _ _ (keep_query _) λ _. keep_bind _ _ (keep_query _) λ _.
        keep_bind _ _ (keep_query _) λ _. keep_bind _ _ (keep_query _) λ _.
          keep_bind _ _ (keep_query _) λ _.
            keep_bind _ _ (keep_execute _ (λ db h. h))
              λ _. keep_bind _ _ (keep_execute _ (λ db h. h)) λ _. keep_commit

    pub extend_lock-Projects : Keeps (Projects ps) (extend_lock lib w i n user)
    unfolding extend_lock audit set_expiry
    extend_lock-Projects = keep_bind _ _ (keep_query _) λ _. keep_bind _ _ (keep_query _) λ _.
        keep_bind _ _ (keep_query _) λ _. keep_bind _ _ (keep_query _) λ _.
          keep_bind _ _ (keep_raise_if _ _) λ _. keep_bind _ _ (keep_execute _ (λ db h. h)) λ _.
            keep_bind _ _ (keep_execute _ (λ db h. h))
              λ _. keep_bind _ _ keep_commit λ _. keep_query _

    finish-Projects :
        (project : TaskingProject) (task : TaskingTask) (l : TaskingLock) (actor : ActorRole)
        (feedback : Option FeedbackInput)
        → Keeps (Projects ps) (finish lib now i n user.user_uuid project task l actor feedback)
    unfolding finish audit release_lock update_task
    finish-Projects project task l actor feedback =
        keep_bind _ _ (next_status-Projects actor now i user.user_uuid project task feedback) λ st.
          keep_bind _ _ (keep_execute _ (λ db h. h)) λ _.
            keep_bind _ _ (keep_execute _ (λ db h. h)) λ _.
              keep_bind _ _ (keep_execute _ (λ db h. h)) λ _.
                keep_bind _ _ (keep_execute _ (audit_change-Projects task i user.user_uuid st))
                  λ _. keep_bind _ _ keep_commit λ _. keep_bind _ _ (keep_query _) λ _. keep_query _

    renew-Projects :
        (project : TaskingProject) (task : TaskingTask) (l : TaskingLock)
        → Keeps (Projects ps) (renew lib now i n user.user_uuid project task l)
    unfolding renew audit set_expiry
    renew-Projects project task l = keep_bind _ _ (keep_execute _ (λ db h. h)) λ _.
        keep_bind _ _ (keep_execute _ (λ db h. h))
          λ _. keep_bind _ _ keep_commit λ _. keep_bind _ _ (keep_query _) λ _. keep_query _

    pub submit-Projects :
        (body : SubmitRequest) → Keeps (Projects ps) (submit lib now w i n user body)
    unfolding submit
    submit-Projects body = keep_bind _ _ (keep_query _) λ project.
        keep_bind _ _ (keep_query _) λ task. keep_bind _ _ (keep_query _) λ _.
          keep_bind _ _ (keep_query _) λ l. keep_bind _ _ (keep_query _) λ actor.
            keep_if body.done _ _ (finish-Projects project task l actor body.feedback)
              (renew-Projects project task l)

    pub submit_changeset-Projects :
        (changeset : ℕ) → Keeps (Projects ps) (submit_changeset now w i n user changeset)
    unfolding submit_changeset audit add_changeset
    submit_changeset-Projects changeset = keep_bind _ _ (keep_query _) λ _.
        keep_bind _ _ (keep_query _) λ _. keep_bind _ _ (keep_query _) λ _.
          keep_bind _ _ (keep_query _) λ _. keep_bind _ _ (keep_query _) λ _.
            keep_bind _ _ (keep_execute _ (λ db h. h)) λ _.
              keep_bind _ _ (keep_execute _ (λ db h. h))
                λ _. keep_bind _ _ keep_commit λ _. keep_pure _

  module _ (w i : ℕ) (u : Uuid) where
    pub remove_role-Projects : Keeps (Projects ps) (remove_role w i u)
    unfolding remove_role delete_role
    remove_role-Projects = keep_bind _ _ (keep_query _) λ _. keep_bind _ _ (keep_query _) λ _.
        keep_bind _ _ (keep_query _) λ _.
          keep_bind _ _ (keep_raise_if _ _)
            λ _. keep_bind _ _ (keep_execute _ (λ db h. h)) λ _. keep_commit

    module _ (now : Datetime) (role : RoleType) where
      pub add_role-Projects :
          (members : Members) → Keeps (Projects ps) (add_role members now w i u role)
      unfolding add_role
      add_role-Projects members = keep_bind _ _ (keep_query _) λ _.
          keep_bind _ _ (keep_query _) λ missing.
            keep_bind _ _ (provision_missing-Projects members missing) λ _.
              keep_bind _ _ (keep_raise_if _ _) λ _. keep_bind _ _ (keep_query _) λ _.
                keep_bind _ _ (keep_raise_if _ _) λ _.
                  keep_bind _ _
                    (keep_rolling_back _ _
                      (keep_bind _ _ (insert_role-Projects _) λ _. keep_commit))
                    λ _. keep_query _

      pub update_role-Projects : Keeps (Projects ps) (update_role now w i u role)
      unfolding update_role set_role
      update_role-Projects = keep_bind _ _ (keep_query _) λ _. keep_bind _ _ (keep_query _) λ _.
          keep_bind _ _ (keep_query _) λ _. keep_bind _ _ (keep_raise_if _ _) λ _.
            keep_bind _ _ (keep_execute _ (λ db h. h))
              λ _. keep_bind _ _ keep_commit λ _. keep_query _

      pub upsert_role-Projects : Keeps (Projects ps) (upsert_role now w i u role)
      unfolding upsert_role
      upsert_role-Projects = keep_bind _ _ (keep_query _) λ _. keep_bind _ _ (keep_query _) λ _.
          keep_bind _ _ (keep_query _) λ _.
            keep_bind _ _
              (keep_rolling_back _ _ (keep_bind _ _ (upsert_role_row-Projects _) λ _. keep_commit))
              λ _. keep_bind _ _ (keep_query _) λ _. keep_pure _
