-- ===== src/Tasking/Properties/Transitions.antt =====
-- The transition table of `submit` in api/src/tasking/tasks/repository.py, written on its own, and
-- that the steps of the code follow it.
use workspaces_backend.Base.{
  ℕ, ◌≡◌, refl, ap, Bool, true, false, Option, none, some, ==_refl, if◌then◌else◌,
}
use workspaces_backend.Core.{Result, ok, Session, Ends, bind_found, bind_execute, end_pure}
use workspaces_backend.Tasking.Schema.{
  Db, TaskingProject, TaskingTask, TaskingLock, TaskStatus, to_map, to_review, to_remap, completed,
  Uuid, status_eq, FeedbackReason,
}
use workspaces_backend.Tasking.Tasks.Queries.{audit}
use workspaces_backend.Tasking.Tasks.Submit.{
  FeedbackInput, held_by, ActorRole, mapper, validator, actor_role, next_status, new_last_mapper,
  add_feedback, required_reason,
}

-- Where a finished task goes: a first mapping to review or, where the project wants no review, to
-- completion; a remapping to review; a review to completion, or with feedback to remapping.
abbrev pub moved : TaskStatus → Bool → Option FeedbackInput → Option TaskStatus
moved to_map true feedback = some to_review
moved to_map false feedback = some completed
moved to_remap review_required feedback = some to_review
moved to_review review_required none = some completed
moved to_review review_required (some f) = elim f.reason_category [
  | some _ ↦ some to_remap
  | none ↦ none
]
moved completed review_required feedback = none

-- The last mapper that goes with it: whoever maps, and after a review whoever it was.
abbrev pub mapped_by : TaskStatus → Uuid → Option Uuid → Option Uuid
mapped_by to_review user before = before
mapped_by _ user before = some user

pub record Next (st : TaskStatus) (s : Session Db) (r : Result TaskStatus × Session Db)
    : Type 0 where
  pub answer : r.0 ≡ ok st
  pub tasks : r.1.working.tasks ≡ s.working.tasks
  pub locks : r.1.working.locks ≡ s.working.locks

moved-mapper :
    (old : TaskStatus) (review_required : Bool) (feedback : Option FeedbackInput) (st : TaskStatus)
    → actor_role old ≡ ok mapper
    → moved old review_required feedback ≡ some st
    → (if status_eq old to_map then if review_required then to_review else completed else to_review)
      ≡ st
unfolding actor_role
moved-mapper to_map true f st h m = cc
moved-mapper to_map false f st h m = cc
moved-mapper to_remap b f st h m = cc
moved-mapper to_review b f st h m = absurd (cc h)
moved-mapper completed b f st h m = absurd (cc h)

validator-review : (old : TaskStatus) → actor_role old ≡ ok validator → old ≡ to_review
unfolding actor_role
validator-review to_map h = absurd (cc h)
validator-review to_remap h = absurd (cc h)
validator-review to_review h = refl
validator-review completed h = absurd (cc h)

moved-review :
    (b : Bool) (f : FeedbackInput) (st : TaskStatus)
    → moved to_review b (some f) ≡ some st
    → (r : FeedbackReason) × (f.reason_category ≡ some r) × (to_remap ≡ st)
moved-review b f st m = go f.reason_category refl
  where
    go :
        (o : Option FeedbackReason)
        → f.reason_category ≡ o
        → (r : FeedbackReason) × (f.reason_category ≡ some r) × (to_remap ≡ st)
    go none e = absurd (cc (rw e at m))
    go (some r) e = (r, e, cc (rw e at m))

module _ (p user now : ℕ) (project : TaskingProject) (task : TaskingTask) where
  pub next_status-Next :
      (actor : ActorRole) (feedback : Option FeedbackInput) (st : TaskStatus) (s : Session Db)
      → actor_role task.status ≡ ok actor
      → moved task.status project.review_required feedback ≡ some st
      → Ends (Next st s) (next_status actor now p user project task feedback) s
  unfolding next_status actor_role add_feedback audit
  next_status-Next mapper feedback st s h m = end_pure _ (record {
    answer = ap ok (moved-mapper task.status project.review_required feedback st h m);
    tasks = refl;
    locks = refl;
  })
  next_status-Next validator none st s h m = end_pure _ (record {
    answer = cc (rw (validator-review task.status h) at m);
    tasks = refl;
    locks = refl;
  })
  next_status-Next validator (some f) st s h m =
      let r =
        moved-review project.review_required f st (rw (validator-review task.status h) at m) in
      bind_found _ _ (ap required_reason r.1) (
        bind_execute _ _ (
          bind_execute _ _
            (end_pure _ (record { answer = ap ok r.2; tasks = refl; locks = refl }))))

-- A status that moves has an actor, and the last mapper that the actor's rule gives.
pub moved-actor :
    (old : TaskStatus) (b : Bool) (f : Option FeedbackInput) (st : TaskStatus)
    → moved old b f ≡ some st
    → (actor : ActorRole) × (actor_role old ≡ ok actor)
unfolding actor_role
moved-actor to_map b f st m = (mapper, refl)
moved-actor to_remap b f st m = (mapper, refl)
moved-actor to_review b f st m = (validator, refl)
moved-actor completed b f st m = absurd (cc m)

pub mapped_by-actor :
    (old : TaskStatus) (actor : ActorRole) (user : ℕ) (task : TaskingTask)
    → actor_role old ≡ ok actor
    → new_last_mapper actor user task ≡ mapped_by old user task.last_mapper_id
unfolding actor_role
mapped_by-actor to_map mapper user task h = refl
mapped_by-actor to_map validator user task h = absurd (cc h)
mapped_by-actor to_remap mapper user task h = refl
mapped_by-actor to_remap validator user task h = absurd (cc h)
mapped_by-actor to_review mapper user task h = absurd (cc h)
mapped_by-actor to_review validator user task h = refl
mapped_by-actor completed actor user task h = absurd (cc h)

pub held_by-ok :
    (user : ℕ) (l : TaskingLock) → l.user_auth_uid ≡ user → held_by user (some l) ≡ ok l
unfolding held_by
held_by-ok user l e = rw (e, ==_refl user) refl
