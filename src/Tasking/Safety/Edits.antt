-- ===== src/Tasking/Safety/Edits.antt =====
-- Creating and editing a project against the invariant: `create` and `patch` of
-- api/src/tasking/projects/repository.py.
use workspaces_backend.Tasking.Projects.Queries.{is_named, update_project}
use workspaces_backend.Base.{ℕ, ◌≡◌, refl, List, [], ◌∷◌, Bool-cases, inl, inr, any}
use workspaces_backend.Core.{
  Keeps, keep_bind, keep_pure, keep_query, keep_rolling_back, keep_raise_if, keep_execute,
  keep_commit, keep_if, keep_step,
}
use workspaces_backend.Security.UserInfo.{UserInfo}
use workspaces_backend.Tasking.Schema.{Db, TaskingProject, Datetime, lead}
use workspaces_backend.Tasking.Geometry.{Shapely}
use workspaces_backend.Tasking.Tasks.Queries.{is_role_of}
use workspaces_backend.Tasking.Invariant.{Inv, insert_project-IsSound}
use workspaces_backend.Tasking.Projects.Provision.{Members}
use workspaces_backend.Tasking.Projects.Create.{
  ProjectRoleAssignment, ProjectCreateRequest, role_row, seed_roles, seed_creator, insert_project,
  preflight, new_project, create,
}
use workspaces_backend.Tasking.Projects.Edit.{
  ProjectUpdateRequest, apply_updates, save_updates, patch, updated_fields, is_nil,
}
use workspaces_backend.Tasking.Safety.Writes.{audit-Inv}
use workspaces_backend.Tasking.Safety.ProjectWrites.{update_project-Inv}
use workspaces_backend.Tasking.Safety.Roles.{
  provision_users_from_tdei-Keeps, insert_role-Keeps, upsert_role_row-Keeps,
}

module _ (lower : List ℕ → List ℕ) where
  insert_project-Keeps :
      (row : ℕ → TaskingProject)
      → ((id : ℕ) → (row id).id ≡ id)
      → Keeps Inv (insert_project lower row)
  unfolding insert_project
  insert_project-Keeps row next = keep_step _ λ s v c.
      elim (Bool-cases (any (is_named lower (row s.working.next_project_id)) s.working.projects)) [
        | inl e ↦ rw e (v, c)
        | inr e ↦ rw e (insert_project-IsSound v (row s.working.next_project_id) (next _), c)
      ]

  save_updates-Keeps :
      (change : TaskingProject → TaskingProject) (project : TaskingProject)
      → ((db : Db) → Inv db → Inv (update_project project.id change db))
      → Keeps Inv (save_updates lower change project)
  unfolding save_updates
  save_updates-Keeps change project h = keep_step _ λ s v c.
      elim (Bool-cases (any (is_named lower (change project)) s.working.projects)) [
        | inl e ↦ rw e (v, c)
        | inr e ↦ rw e (h s.working v, c)
      ]

apply_updates-Inv :
    (body : ProjectUpdateRequest) (now k : ℕ) (db : Db)
    → Inv db
    → Inv (update_project k (apply_updates body now) db)
unfolding apply_updates
apply_updates-Inv body now k db v = update_project-Inv k _ db v (λ p. refl) (λ p. refl) (λ p h. h)

seed_creator-Keeps : (i now u : ℕ) → Keeps Inv (seed_creator i now u)
unfolding seed_creator
seed_creator-Keeps i now u = record {
  keeps = λ s v c. elim (Bool-cases (any (is_role_of i u) s.working.project_roles)) [
    | inl e ↦ record { at = rw e (v, c) }
    | inr e ↦ record { at = rw e ((insert_role-Keeps (role_row i now u lead)).keeps s v c).at }
  ];
}

seed_roles-Keeps : (i now : ℕ) (ras : List ProjectRoleAssignment) → Keeps Inv (seed_roles i now ras)
unfolding seed_roles
seed_roles-Keeps i now [] = keep_pure _
seed_roles-Keeps i now (ra ∷ ras) =
    keep_bind _ _ (upsert_role_row-Keeps (role_row i now ra.user_id ra.role))
      λ _. seed_roles-Keeps i now ras

preflight-Keeps :
    (members : Members) (user : UserInfo) (ras : List ProjectRoleAssignment)
    → Keeps Inv (preflight members user ras)
unfolding preflight
preflight-Keeps members user ras = keep_bind _ _ (keep_query _) λ missing.
    keep_if (is_nil missing) _ _ (keep_pure tt) (
      keep_bind _ _ (provision_users_from_tdei-Keeps members missing)
        λ _. keep_bind _ _ (keep_raise_if _ _) λ _. keep_raise_if _ _)

module _ (lower : List ℕ → List ℕ) (now : Datetime) (w : ℕ) (user : UserInfo) where
  pub create-Keeps :
      (lib : Shapely) (members : Members) (body : ProjectCreateRequest)
      → Keeps Inv (create lower lib members now w user body)
  unfolding create new_project
  create-Keeps lib members body =
      keep_bind _ _ (preflight-Keeps members user body.role_assignments) λ _.
        keep_bind _ _ (keep_query _) λ aoi.
          keep_bind _ _
            (keep_rolling_back _ _ (
              keep_bind _ _ (insert_project-Keeps lower _ (λ id. refl)) λ p.
                keep_bind _ _ (seed_roles-Keeps p.id now body.role_assignments) λ _.
                  keep_bind _ _ (seed_creator-Keeps p.id now user.user_uuid) λ _.
                    keep_bind _ _ (keep_execute _ (audit-Inv _ _ _ _ _))
                      λ _. keep_bind _ _ keep_commit λ _. keep_query _))
            λ _. keep_pure _

  pub patch-Keeps :
      (i : ℕ) (body : ProjectUpdateRequest) → Keeps Inv (patch lower now w i body user)
  unfolding patch
  patch-Keeps i body = keep_bind _ _ (keep_query _) λ project.
      keep_bind _ _ (keep_raise_if _ _) λ _. keep_bind _ _ (keep_raise_if _ _) λ _.
        keep_bind _ _
          (keep_if (is_nil (updated_fields body)) _ _ (keep_pure project) (
            keep_bind _ _
              (keep_rolling_back _ _ (
                keep_bind _ _
                  (save_updates-Keeps lower _ project (apply_updates-Inv body now project.id))
                  λ _. keep_bind _ _ (keep_execute _ (audit-Inv _ _ _ _ _)) λ _. keep_commit))
              λ _. keep_query _))
          λ _. keep_bind _ _ (keep_query _) λ _. keep_pure _
