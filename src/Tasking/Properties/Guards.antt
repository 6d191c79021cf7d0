-- ===== src/Tasking/Properties/Guards.antt =====
-- The checks in front of the writing endpoints of api/src/tasking/tasks/routes.py and
-- api/src/tasking/projects/routes.py, one at a time.
use workspaces_backend.Base.{ℕ, ◌≡◌, ◌⊎◌, refl, ◌∙◌, true, ◌&&◌, ◌||◌, any, inl, inr, Bool-cases}
use workspaces_backend.Core.{
  Action, ◌>>=◌, ◌>>◌, pure, Result, ok, err, Result-cases, run, Session, continue, at_end,
}
use workspaces_backend.Security.UserInfo.{UserInfo, is_workspace_lead}
use workspaces_backend.Workspaces.Schema.{TaskDb, Workspace}
use workspaces_backend.Workspaces.Queries.{get_by_id}
use workspaces_backend.Tasking.Schema.{Db, is_lead}
use workspaces_backend.Tasking.Tasks.Queries.{get_project, is_role_of}
use workspaces_backend.Tasking.Projects.Roles.{assert_can_manage_roles}
use workspaces_backend.Tasking.Service.{
  Operation, to_lock, to_extend, to_reset_task, to_unlock, to_submit, to_submit_changeset, to_save,
  to_create, to_patch, to_upload_aoi, to_delete_aoi, to_delete, to_activate, to_close, to_reset,
  to_add_role, to_update_role, to_upsert_role, to_remove_role, after, opened,
}
use workspaces_backend.Tasking.Routes.{assert_workspace_visible, assert_workspace_lead}

-- What an endpoint asks of the caller, beyond seeing the workspace.
pub data Need : Type 0 where
  nothing workspace_lead : Need
  any_lead : ℕ → Need

abbrev pub workspace_id_of : Operation → ℕ
workspace_id_of (to_lock t) = t.workspace_id
workspace_id_of (to_extend t) = t.workspace_id
workspace_id_of (to_reset_task t) = t.workspace_id
workspace_id_of (to_unlock t force) = t.workspace_id
workspace_id_of (to_submit t body) = t.workspace_id
workspace_id_of (to_submit_changeset t changeset) = t.workspace_id
workspace_id_of (to_save p body key) = p.workspace_id
workspace_id_of (to_create w body members) = w
workspace_id_of (to_patch p body) = p.workspace_id
workspace_id_of (to_upload_aoi p aoi) = p.workspace_id
workspace_id_of (to_delete_aoi p) = p.workspace_id
workspace_id_of (to_delete p) = p.workspace_id
workspace_id_of (to_activate p) = p.workspace_id
workspace_id_of (to_close p) = p.workspace_id
workspace_id_of (to_reset p) = p.workspace_id
workspace_id_of (to_add_role p u role members) = p.workspace_id
workspace_id_of (to_update_role p u role) = p.workspace_id
workspace_id_of (to_upsert_role p u role) = p.workspace_id
workspace_id_of (to_remove_role p u) = p.workspace_id

-- Work on tasks is open to all who see the workspace (the repository decides about locks); roles of
-- a project may be changed by its own LEADs too; everything else is for a workspace LEAD.
abbrev pub need_of : Operation → Need
need_of (to_lock t) = nothing
need_of (to_extend t) = nothing
need_of (to_unlock t force) = nothing
need_of (to_submit t body) = nothing
need_of (to_submit_changeset t changeset) = nothing
need_of (to_add_role p u role members) = any_lead p.project_id
need_of (to_update_role p u role) = any_lead p.project_id
need_of (to_upsert_role p u role) = any_lead p.project_id
need_of (to_remove_role p u) = any_lead p.project_id
need_of _ = workspace_lead

abbrev pub Meets : UserInfo → ℕ → Db → Need → Type 0
Meets user w db nothing = Unit
Meets user w db workspace_lead = is_workspace_lead user w ≡ true
Meets user w db (any_lead p) =
    (is_workspace_lead user w
      || any (λ r. is_role_of p user.user_uuid r && is_lead r.role) db.project_roles)
    ≡ true

module _ (tasks : TaskDb) (user : UserInfo) where
  abbrev pub Sees : ℕ → Type 0
  Sees w = (row : Workspace) × (get_by_id user w tasks ≡ ok row)

  abbrev pub IsAllowed : Db → Operation → Type 0
  IsAllowed db op = Sees (workspace_id_of op) × Meets user (workspace_id_of op) db (need_of op)

  -- Either nothing happens, or the caller may and what is left to do happens.
  abbrev pub Guarded : {A B : Type 0} → Type 0 → Action Db A → Action Db B → Db → Type 0
  Guarded P m rest db = (after m db ≡ db) ⊎ (P × (after m db ≡ after rest db))

  module _ {A : Type 0} (db : Db) where
    after_visible :
        (w : ℕ) (k : Workspace → Action Db A)
        → (after (assert_workspace_visible tasks user w >>= k) db ≡ db)
          ⊎ ((s : Sees w) × (after (assert_workspace_visible tasks user w >>= k) db
                ≡ after (k s.0) db))
    unfolding assert_workspace_visible run
    after_visible w k = elim (Result-cases (get_by_id user w tasks)) [
      | inl (row, e) ↦ inr ((row, e), rw e refl)
      | inr (x, e) ↦ inl (rw e refl)
    ]

    after_lead :
        (w : ℕ) (m : Action Db A)
        → Guarded (is_workspace_lead user w ≡ true) (assert_workspace_lead tasks user w >> m) m db
    unfolding assert_workspace_lead run
    after_lead w m = elim (Bool-cases (is_workspace_lead user w)) [
      | inl e ↦ inr (e, rw e refl)
      | inr e ↦ inl (rw e refl)
    ]

    after_manage :
        (w p : ℕ) (m : Action Db A)
        → Guarded (Meets user w db (any_lead p)) (assert_can_manage_roles w p user >> m) m db
    unfolding assert_can_manage_roles run
    after_manage w p m = elim (Result-cases (get_project w p db)) [
      | inr (x, e) ↦ inl (rw e refl)
      | inl (row, e) ↦
          elim (Bool-cases (
            is_workspace_lead user w
            || any (λ r. is_role_of p user.user_uuid r && is_lead r.role) db.project_roles)) [
              | inl may ↦ inr (may, rw (e, may) refl)
              | inr not_may ↦ inl (rw (e, not_may) refl)
            ]
    ]

    pub for_anyone :
        (w : ℕ) (m : Action Db A)
        → Guarded (Sees w × Unit) (assert_workspace_visible tasks user w >> m) m db
    for_anyone w m = elim (after_visible w (λ _. m)) [
      | inl none ↦ inl none
      | inr (sees, rest) ↦ inr ((sees, tt), rest)
    ]

    pub for_lead :
        (w : ℕ) (m : Action Db A)
        → Guarded
            (Sees w × (is_workspace_lead user w ≡ true))
            (assert_workspace_visible tasks user w >> (assert_workspace_lead tasks user w >> m))
            m
            db
    for_lead w m = elim (after_visible w (λ _. assert_workspace_lead tasks user w >> m)) [
      | inl none ↦ inl none
      | inr (sees, rest) ↦ elim (after_lead w m) [
        | inl none ↦ inl (rest ∙ none)
        | inr (leads, then) ↦ inr ((sees, leads), rest ∙ then)
      ]
    ]

    pub for_manager :
        (w p : ℕ) (m : Action Db A)
        → Guarded
            (Sees w × Meets user w db (any_lead p))
            (assert_workspace_visible tasks user w >> (assert_can_manage_roles w p user >> m))
            m
            db
    for_manager w p m = elim (after_visible w (λ _. assert_can_manage_roles w p user >> m)) [
      | inl none ↦ inl none
      | inr (sees, rest) ↦ elim (after_manage w p m) [
        | inl none ↦ inl (rest ∙ none)
        | inr (may, then) ↦ inr ((sees, may), rest ∙ then)
      ]
    ]

  -- What is only done with the answer does not matter to the tables.
  after_answer :
      {A B : Type 0} (m : Action Db A) (f : A → B) (db : Db)
      → after (m >>= λ a. pure (f a)) db ≡ after m db
  unfolding run
  after_answer {A} m f db = go (m (opened db))
    where
      go : (r : Result A × Session Db) → at_end (continue (λ a. pure (f a)) r) ≡ at_end r
      go (ok a, s) = refl
      go (err e, s) = refl

  pub answered :
      {A B C : Type 0} (P : Type 0) (m : Action Db C) (rest : Action Db A) (f : A → B) (db : Db)
      → Guarded P m (rest >>= λ a. pure (f a)) db
      → Guarded P m rest db
  answered P m rest f db (inl none) = inl none
  answered P m rest f db (inr (h, e)) = inr (h, e ∙ after_answer rest f db)

  -- The second look at the workspace finds what the first found, or nothing happens.
  pub looked_again :
      {A B : Type 0} (P : Type 0) (m : Action Db B) (w : ℕ) (rest : Action Db A) (db : Db)
      → Guarded P m (assert_workspace_visible tasks user w >> rest) db
      → Guarded P m rest db
  looked_again P m w rest db (inl none) = inl none
  looked_again P m w rest db (inr (h, e)) = elim (after_visible db w (λ _. rest)) [
    | inl none ↦ inl (e ∙ none)
    | inr (_, then) ↦ inr (h, e ∙ then)
  ]
