-- ===== src/Examples/Theorems.antt =====
-- The theorems on locks, submissions and roles, in the example workspace.

use workspaces_backend.Tasking.Projects.Roles.{lead_count}
use workspaces_backend.Base.{
  ◌≡◌, refl, true, [], ◌∷◌, none, some, arith, length-filter-update_where, ◌==◌, ◌||◌,
}
use workspaces_backend.Core.{ok, Keeps}
use workspaces_backend.Tasking.Schema.{Db, validator, manual}
use workspaces_backend.Tasking.Invariant.{Inv}
use workspaces_backend.Tasking.Tasks.Queries.{get_task, release_lock, locks_task, locks_for_user}
use workspaces_backend.Tasking.Tasks.Submit.{SubmitRequest, submit}
use workspaces_backend.Tasking.Tasks.Locks.{lock_task, eligible}
use workspaces_backend.Tasking.Service.{
  Request, to_create, to_submit, to_remove_role, start, next, perform, empty, opened,
}
use workspaces_backend.Tasking.Properties.Soundness.{perform-Inv, Reachable-Inv}
use workspaces_backend.Tasking.Properties.FourEyes.{Refused, submit-four_eyes}
use workspaces_backend.Tasking.Properties.Locking.{
  OneActive, lock_task-OneActive, eligible-documented, is_ok, has_role, may_lock,
  is_mapping_validator,
}
use workspaces_backend.Tasking.Properties.Leads.{HasLead}
use workspaces_backend.Tasking.Properties.RoleChanges.{role_change-HasLead}
use workspaces_backend.Examples.Data.{
  segments, exact, mary, rosa, lena, task, db, task_path, project_path,
}

pub db-Inv : Inv db
db-Inv = record {
  project_ids = (tt, tt);
  projects_below = (omega arith, tt);
  task_ids = (tt, tt);
  tasks_below = (omega arith, tt);
  mappers = (refl, tt);
  locks_below = (omega arith, tt);
  one_per_task = λ k. ground arith;
  one_per_user = λ k u. ground arith;
  agree = (((λ _ _. (refl, refl, refl)), tt), tt);
  opened = (((λ _ _. (refl, refl)), tt), tt);
}

abbrev done_body : SubmitRequest
done_body = record { done = true; feedback = none }

abbrev creation : Request
creation = record {
  user = lena;
  now = 1;
  operation =
      to_create 1
        (record {
          name = 97 ∷ [];
          instructions = none;
          review_required = true;
          lock_timeout_hours = 8;
          aoi = none;
          role_assignments = [];
          custom_imagery = none;
          description = none;
        })
        (ok (record { auth_uid = 9; email = none; display_name = none } ∷ []));
}

abbrev submission : Request
submission = record { user = rosa; now = 5; operation = to_submit task_path done_body }

Reachable-Inv_example : Inv (perform exact segments lena 1 creation.operation empty)
Reachable-Inv_example = Reachable-Inv exact segments _ (next empty creation start)

perform-Inv_example : Inv (perform exact segments rosa 5 submission.operation db)
perform-Inv_example = perform-Inv exact segments submission db db-Inv

submit-four_eyes_example : Refused (opened db) (submit segments 5 1 1 1 mary done_body (opened db))
submit-four_eyes_example =
    submit-four_eyes segments 5 1 1 1 mary done_body db task db-Inv (unfold get_task in refl) refl
      refl

abbrev rosa_releases : Db → Db
rosa_releases = release_lock 2 4 manual

rosa_releases-OneActive : (t : Db) → OneActive t → OneActive (rosa_releases t)
unfolding release_lock
rosa_releases-OneActive t one = record {
  per_task = λ k. omega (
    arith,
    one.per_task k,
    length-filter-update_where (locks_task k) (λ l. l.id == 2)
        (λ l. record l { released_at = some 4; release_reason = some manual })
        (λ l h. absurd (ground arith)) t.locks,
  );
  per_user = λ k u. omega (
    arith,
    one.per_user k u,
    length-filter-update_where (locks_for_user k u) (λ l. l.id == 2)
        (λ l. record l { released_at = some 4; release_reason = some manual })
        (λ l h. absurd (ground arith)) t.locks,
  );
}

lock_task-OneActive_example : Keeps OneActive (lock_task segments 5 rosa_releases 1 1 1 lena)
lock_task-OneActive_example =
    lock_task-OneActive segments 5 rosa_releases 1 1 1 lena rosa_releases-OneActive

eligible-documented_example :
    is_ok (eligible task 7 (some validator))
    ≡ has_role (λ r. may_lock task 7 r || is_mapping_validator task r) (some validator)
eligible-documented_example = eligible-documented task 7 (some validator)

db-HasLead : HasLead 1 db
unfolding lead_count
db-HasLead = record { unique_role = λ i u. ground arith; some_lead = omega arith }

role_change-HasLead_example :
    HasLead 1 (perform exact segments lena 5 (to_remove_role project_path 9) db)
role_change-HasLead_example =
    role_change-HasLead 1 exact segments lena 5 (to_remove_role project_path 9) db refl db-HasLead
