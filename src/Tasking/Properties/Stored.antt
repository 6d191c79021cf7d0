-- ===== src/Tasking/Properties/Stored.antt =====
-- Saves that are stored under a key and found again: `save` of
-- api/src/tasking/tasks/repository.py.
use Prim.Native.String.{String}
use text.Mathlib.Text.{◌==◌ as str_eq}
use text.Mathlib.TextPositions.{compare_refl}
use workspaces_backend.Base.{
  ℕ, ◌≡◌, refl, ap, ◌∙◌, Bool, true, false, List, [], ◌∷◌, ◌++◌, none, some, Bool-cases, inl, inr,
  filter, ◌==◌, ==_refl, update_where, filter-update_where, Option,
}
use workspaces_backend.Core.{ok, scalar_one_or_raise-eq-ok, scalar_one_or_raise, Result, err}
use workspaces_backend.Tasking.Schema.{Db, TaskingProject, TaskBoundaryType, Wkb, SaveRecord}
use workspaces_backend.Tasking.Dtos.{SaveTasksResponse}
use workspaces_backend.Tasking.Tasks.Queries.{get_project, is_project}
use workspaces_backend.Tasking.Tasks.Save.{
  replay, stored_save, store_save, is_save, first, set_boundary_type, required_aoi,
}

module _ (w i : ℕ) where
  -- The project that the SELECT finds after the UPDATE of its boundary type.
  pub set_boundary_type-get_project :
      (db : Db) (project : TaskingProject) (b : TaskBoundaryType) (now : ℕ)
      → get_project w i db ≡ ok project
      → get_project w i (set_boundary_type project.id b now db)
        ≡ ok (record project { task_boundary_type = some b; updated_at = now })
  unfolding get_project set_boundary_type
  set_boundary_type-get_project db project b now h =
      let f : TaskingProject → TaskingProject =
        λ q. record q { task_boundary_type = some b; updated_at = now } in
      let one = scalar_one_or_raise-eq-ok _ (filter (is_project w i) db.projects) project h in
      let hit : filter (is_project w i) (update_where (λ q. q.id == project.id) f db.projects)
          ≡ f project ∷ [] =
        filter-update_where (is_project w i) (λ q. q.id == project.id) f (λ q. refl) db.projects
        ∙ ap (update_where (λ q. q.id == project.id) f) one
        ∙ rw (==_refl project.id) refl in
      ap (scalar_one_or_raise _) hit

first-append :
    {A : Type 0} (q : A → Bool) (xs : List A) (x : A)
    → first (filter q xs) ≡ none
    → q x ≡ true
    → first (filter q (xs ++ x ∷ [])) ≡ some x
first-append q [] x h e = rw e refl
first-append q (y ∷ xs) x h e = elim (Bool-cases (q y)) [
  | inl d ↦ absurd (cc (rw d at h))
  | inr d ↦ rw d (first-append q xs x (rw d at h) e)
]

abbrev was_replayed : Result (SaveTasksResponse × Bool) → Bool
was_replayed (ok (_, again)) = again
was_replayed (err _) = false

true≢false : true ≡ false → ⊥
true≢false h = cc h

-- A stored save is never answered as a new one.
pub replay-not_new :
    (hash : ℕ) (row : SaveRecord) (response : SaveTasksResponse)
    → replay hash row ≡ ok (response, false)
    → ⊥
unfolding replay
replay-not_new hash row response h = elim (Bool-cases (row.body_hash == hash)) [
  | inl e ↦ true≢false (ap was_replayed (rw e at h))
  | inr e ↦ absurd (cc (rw e at h))
]

pub required_aoi-ok :
    (o : Option Wkb) (aoi : Wkb)
    → required_aoi o "Project AOI is required before saving tasks" ≡ ok aoi
    → o ≡ some aoi
required_aoi-ok none aoi h = absurd (cc h)
required_aoi-ok (some x) aoi h = cc h

-- A save that has been stored is found again.
pub store_save-stored_save :
    (p : ℕ) (key : String) (hash : ℕ) (r : SaveTasksResponse) (db : Db)
    → str_eq key "" ≡ false
    → stored_save p (some key) db ≡ none
    → stored_save p (some key) (store_save p (some key) hash r db)
      ≡ some (record { project_id = p; key = key; body_hash = hash; response = r })
unfolding stored_save store_save
store_save-stored_save p key hash r db named h =
    rw (named, store_save, stored_save)
      (first-append (is_save p key) db.saves _ (rw (named, stored_save) at h)
        (rw (==_refl p, compare_refl key) refl))

pub store_save-get_project :
    (w i p : ℕ) (key : String) (hash : ℕ) (r : SaveTasksResponse) (db : Db)
    → get_project w i (store_save p (some key) hash r db) ≡ get_project w i db
unfolding get_project store_save
store_save-get_project w i p key hash r db = elim (Bool-cases (str_eq key "")) [
  | inl e ↦ rw e refl
  | inr e ↦ rw e refl
]
