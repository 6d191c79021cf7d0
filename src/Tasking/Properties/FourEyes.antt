-- ===== src/Tasking/Properties/FourEyes.antt =====
-- The mapper and the reviewer of a task: `submit` of api/src/tasking/tasks/repository.py.
use workspaces_backend.Base.{
  ℕ, ◌≡◌, refl, sym, ap, ◌∙◌, Option, none, some, arith, Bool-cases, inl, inr, ◌==◌,
}
use workspaces_backend.Core.{Result, ok, err, Error, Session, Ends, bind_query, bind_found}
use workspaces_backend.Security.UserInfo.{UserInfo}
use workspaces_backend.Tasking.Schema.{Db, TaskingTask, TaskingLock, to_review, Datetime}
use workspaces_backend.Tasking.Geometry.{Shapely}
use workspaces_backend.Tasking.Tasks.Queries.{get_task}
use workspaces_backend.Tasking.Tasks.Submit.{SubmitRequest, held_by, submit}
use workspaces_backend.Tasking.Invariant.{Inv}
use workspaces_backend.Tasking.Service.{opened}
use workspaces_backend.Tasking.Safety.Reads.{held-Agrees}
use workspaces_backend.Tasking.Safety.Submit.{held_by-eq-ok}

-- The request is refused, and nothing is changed.
abbrev pub Refused : {A : Type 0} → Session Db → Result A × Session Db → Type 0
Refused s r = (e : Error) × (r ≡ (err e, s))

held_by-user :
    (user : ℕ) (held : Option TaskingLock) (l : TaskingLock)
    → held_by user held ≡ ok l
    → l.user_auth_uid ≡ user
unfolding held_by
held_by-user user none l h = absurd (cc h)
held_by-user user (some m) l h = elim (Bool-cases (m.user_auth_uid == user)) [
  | inl e ↦
      let same : m ≡ l = cc (rw e at h) in
      ap (λ (x : TaskingLock). x.user_auth_uid) (sym same) ∙ ground arith
  | inr e ↦ absurd (cc (rw e at h))
]

submit-Refused :
    (lib : Shapely) (now : Datetime) (w i n : ℕ) (user : UserInfo) (body : SubmitRequest) (db : Db)
    (task : TaskingTask)
    → Inv db
    → get_task i n db ≡ ok task
    → task.status ≡ to_review
    → task.last_mapper_id ≡ some user.user_uuid
    → Ends (Refused (opened db)) (submit lib now w i n user body) (opened db)
unfolding submit
submit-Refused lib now w i n user body db task v ht review mine =
    bind_query _ _
      (λ project _. bind_found _ _ ht (
        bind_query _ _
          (λ held hh.
            bind_query _ _
              (λ l hl.
                let found = hh ∙ ap ok (held_by-eq-ok user.user_uuid held l hl) in
                let agree = held-Agrees i n db task l v ht found in
                absurd (ground (arith, agree.1, held_by-user user.user_uuid held l hl)))
              (λ e. (e, refl)))
          (λ e. (e, refl))))
      (λ e. (e, refl))

-- Four eyes: in sound tables, the user who last mapped a task that waits for review cannot submit
-- it, whatever the body says; the request is refused and the session is as it was.
pub submit-four_eyes :
    (lib : Shapely) (now : Datetime) (w i n : ℕ) (user : UserInfo) (body : SubmitRequest) (db : Db)
    (task : TaskingTask)
    → Inv db
    → get_task i n db ≡ ok task
    → task.status ≡ to_review
    → task.last_mapper_id ≡ some user.user_uuid
    → Refused (opened db) (submit lib now w i n user body (opened db))
submit-four_eyes lib now w i n user body db task v ht review mine =
    (submit-Refused lib now w i n user body db task v ht review mine).at
