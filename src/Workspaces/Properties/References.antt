-- ===== src/Workspaces/Properties/References.antt =====
-- Workspaces with settings, and their deletion: `delete_workspace` of api/src/workspaces/routes.py
-- under the foreign keys of alembic_task/versions/c5121cbba124_initial_task_schema.py.
use workspaces_backend.Base.{
  ℕ, ◌≡◌, refl, ap, ◌∙◌, Bool, true, not, ◌||◌, List, [], ◌∷◌, filter, any, Bool-cases, inl, inr,
  some, length,
}
use workspaces_backend.Core.{
  Ends, Result, Session, bind_found, bind_pass, bind_raise_if, bind_known, ok, err, integrity_error,
  not_found_exception, scalar_one_or_raise-eq-ok,
}
use workspaces_backend.Security.UserInfo.{UserInfo, is_workspace_lead}
use workspaces_backend.Tasking.Schema.{Datetime}
use workspaces_backend.Workspaces.Schema.{TaskDb, Workspace, WorkspaceLongQuest, QuestSettingsPatch}
use workspaces_backend.Workspaces.World.{World, begun}
use workspaces_backend.Workspaces.Queries.{
  quest_of, imagery_of, get_by_id, is_workspace, is_referenced, row_count, delete_workspace_row,
}
use workspaces_backend.Workspaces.SettingsRoutes.{
  related, long_form_quest_def, update_long_quest_settings,
}
use workspaces_backend.Workspaces.Routes.{delete_workspace}
use workspaces_backend.Workspaces.Properties.Quests.{saved_settings, then-get_by_id}

related-any :
    {A : Type 0} (p : A → Bool) (xs : List A) (y : A)
    → related (filter p xs) ≡ some y
    → any p xs ≡ true
related-any p [] y h = absurd (cc h)
related-any p (x ∷ xs) y h = elim (Bool-cases (p x)) [
  | inl e ↦ rw e refl
  | inr e ↦ rw e (related-any p xs y (rw e at h))
]

related-is_referenced :
    (id : ℕ) (db : TaskDb) (q : WorkspaceLongQuest)
    → long_form_quest_def id db ≡ some q
    → is_referenced id db ≡ true
unfolding long_form_quest_def is_referenced
related-is_referenced id db q h =
    ap (λ b. b || any (imagery_of id) db.imagery) (related-any (quest_of id) db.long_quests q h)

get_by_id-row :
    (user : UserInfo) (id : ℕ) (db : TaskDb) (row : Workspace)
    → get_by_id user id db ≡ ok row
    → filter (is_workspace user id) db.workspaces ≡ row ∷ []
unfolding get_by_id
get_by_id-row user id db row h =
    scalar_one_or_raise-eq-ok (not_found_exception "Workspace with id {workspace_id} not found")
      (filter (is_workspace user id) db.workspaces) row h

abbrev Refused : {A : Type 0} → World → Result A × Session World → Type 0
Refused w r = r ≡ (err (integrity_error "workspace_id_fkey"), begun w)

module _ (user : UserInfo) (id : ℕ) (w : World) (row : Workspace)
    (visible : get_by_id user id w.tasks ≡ ok row) (refers : is_referenced id w.tasks ≡ true) where
  delete_row-Refused : Ends (Refused w) (delete_workspace_row user id) (begun w)
  unfolding delete_workspace_row
  delete_row-Refused =
      let one : row_count (is_workspace user id) w.tasks.workspaces ≡ 1 =
        ap length (get_by_id-row user id w.tasks row visible) in
      bind_found _ _ (ap ok one)
        (bind_found _ _ (ap ok refers) (bind_raise_if _ _ _ (λ pass. absurd (cc pass)) refl))

  delete_workspace-Refused :
      is_workspace_lead user id ≡ true → Ends (Refused w) (delete_workspace user id) (begun w)
  unfolding delete_workspace
  delete_workspace-Refused leads = bind_pass _ _ _ (ap not leads) (
      bind_found _ _ refl
        (bind_known _ _ delete_row-Refused (λ a s h. absurd (cc h)) (λ e s h. cc h)))

-- Settings keep a workspace from being deleted: once quest settings have been saved for it, every
-- LEAD of the workspace who sees it gets an integrity error from the foreign key, and nothing
-- changes.
pub update_long_quest_settings-delete :
    (now : Datetime) (user : UserInfo) (id : ℕ) (p : QuestSettingsPatch)
    (schema : List ℕ → Result (Unit {0})) (w : World)
    → (update_long_quest_settings schema now user id p (begun w)).0 ≡ ok tt
    → (leader : UserInfo) (row : Workspace) → is_workspace_lead leader id ≡ true
    → get_by_id leader id w.tasks ≡ ok row
    → delete_workspace leader id
        (begun (update_long_quest_settings schema now user id p (begun w)).1.committed)
      ≡ (
        err (integrity_error "workspace_id_fkey"),
        begun (update_long_quest_settings schema now user id p (begun w)).1.committed,
      )
update_long_quest_settings-delete now user id p schema w saved leader row leads visible =
    (delete_workspace-Refused leader id _ row
      (then-get_by_id now user id p schema w saved leader ∙ visible)
      (related-is_referenced id _ _ (saved_settings now user id p schema w saved)) leads).at
