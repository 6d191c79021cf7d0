-- ===== src/Workspaces/Properties/Quests.antt =====
-- Quest settings, saved and read back, and what they do to the deletion of their workspace:
-- `update_long_quest_settings`, `get_long_quest_settings` and `delete_workspace` of
-- api/src/workspaces/routes.py.
use workspaces_backend.Base.{
  ℕ, ◌≡◌, refl, ap, ◌∙◌, Bool, true, false, ◌==◌, List, [], ◌∷◌, ◌++◌, filter, update_where,
  Bool-cases, inl, inr, arith, some, length, ==_iff,
}
use workspaces_backend.Core.{
  Ends, Result, Session, bind_query, bind_found, bind_raise_if, ok, bind_execute,
}
use workspaces_backend.Security.UserInfo.{UserInfo}
use workspaces_backend.Tasking.Schema.{Datetime}
use workspaces_backend.Workspaces.Schema.{TaskDb, Workspace, WorkspaceLongQuest, QuestSettingsPatch}
use workspaces_backend.Workspaces.World.{World, begun}
use workspaces_backend.Workspaces.Queries.{quest_of, get_by_id, row_count}
use workspaces_backend.Workspaces.Settings.{quest_row, insert_quest_if, save_longform_quest}
use workspaces_backend.Workspaces.SettingsRoutes.{
  related, long_form_quest_def, get_long_quest_settings, update_long_quest_settings,
}
use workspaces_backend.Workspaces.Properties.Preservation.{Succeeds, end_commit_tasks}

module _ (now : Datetime) (user : UserInfo) (id : ℕ) (p : QuestSettingsPatch) where
  abbrev overwrite : WorkspaceLongQuest → WorkspaceLongQuest
  overwrite q = quest_row now user q.workspace_id p

  filter-overwrite_none :
      (xs : List WorkspaceLongQuest)
      → filter (quest_of id) xs ≡ []
      → filter
          (quest_of id)
          (update_where (quest_of id) overwrite xs ++ quest_row now user id p ∷ [])
        ≡ quest_row now user id p ∷ []
  filter-overwrite_none [] h = ground arith
  filter-overwrite_none (q ∷ xs) h = elim (Bool-cases (quest_of id q)) [
    | inl e ↦ absurd (cc (rw e at h))
    | inr e ↦ rw (e, e) (filter-overwrite_none xs (rw e at h))
  ]

  related-overwrite :
      (xs r : List WorkspaceLongQuest) (y : WorkspaceLongQuest)
      → filter (quest_of id) xs ≡ y ∷ r
      → related (filter (quest_of id) (update_where (quest_of id) overwrite xs))
        ≡ some (quest_row now user id p)
  related-overwrite [] r y h = absurd (cc h)
  related-overwrite (q ∷ xs) r y h = elim (Bool-cases (quest_of id q)) [
    | inl e ↦
        let same : q.workspace_id ≡ id = (==_iff q.workspace_id id).0 e in
        rw (e, e) (ap (λ i. some (quest_row now user i p)) same)
    | inr e ↦ rw (e, e) (related-overwrite xs r y (rw e at h))
  ]

  -- the table after the UPDATE and the INSERT
  abbrev saved_in : TaskDb → TaskDb
  saved_in db =
      insert_quest_if (row_count (quest_of id) db.long_quests == 0) (quest_row now user id p)
        (record db { long_quests = update_where (quest_of id) overwrite db.long_quests })

  saved_in-long_form_quest_def :
      (db : TaskDb) → long_form_quest_def id (saved_in db) ≡ some (quest_row now user id p)
  unfolding long_form_quest_def insert_quest_if
  saved_in-long_form_quest_def db = go (filter (quest_of id) db.long_quests) refl
    where
      go :
          (xs : List WorkspaceLongQuest)
          → filter (quest_of id) db.long_quests ≡ xs
          → long_form_quest_def id (saved_in db) ≡ some (quest_row now user id p)
      go [] e = rw (e, insert_quest_if) (ap related (filter-overwrite_none db.long_quests e))
      go (y ∷ r) e =
          let some_row : (length (y ∷ r) == 0) ≡ false = ground arith in
          rw (e, some_row, insert_quest_if) (related-overwrite db.long_quests r y e)

  saved_in-workspaces : (db : TaskDb) → (saved_in db).workspaces ≡ db.workspaces
  unfolding insert_quest_if
  saved_in-workspaces db = go (row_count (quest_of id) db.long_quests == 0)
    where
      go :
          (b : Bool)
          → (insert_quest_if b (quest_row now user id p) (record db {
            long_quests = update_where (quest_of id) overwrite db.long_quests;
          })).workspaces
            ≡ db.workspaces
      go true = refl
      go false = refl

  module _ (schema : List ℕ → Result (Unit {0})) (w : World) where
    abbrev SavedIn : Session World → Type 0
    SavedIn t = t.committed.tasks ≡ saved_in w.tasks

    update_settings-SavedIn :
        Ends
          (Succeeds (λ _ t. SavedIn t))
          (update_long_quest_settings schema now user id p)
          (begun w)
    unfolding update_long_quest_settings save_longform_quest
    update_settings-SavedIn =
        bind_query _ _
          (λ _ _.
            bind_raise_if _ _ _
              (λ _.
                bind_query _ _
                  (λ _ _. bind_found _ _ refl (
                    bind_execute _ _ (
                      bind_query _ _
                        (λ exists _.
                          bind_raise_if _ _ _
                            (λ _. bind_execute _ _ (end_commit_tasks (λ a h. refl)))
                            (λ a h. absurd (cc h)))
                        (λ e a h. absurd (cc h)))))
                  (λ e a h. absurd (cc h)))
              (λ a h. absurd (cc h)))
          (λ e a h. absurd (cc h))

    module _ (saved : (update_long_quest_settings schema now user id p (begun w)).0 ≡ ok tt) where
      abbrev pub tasks_then : TaskDb
      tasks_then = (update_long_quest_settings schema now user id p (begun w)).1.committed.tasks

      the_tables : tasks_then ≡ saved_in w.tasks
      the_tables = update_settings-SavedIn.at tt saved

      pub then-get_by_id :
          (reader : UserInfo) → get_by_id reader id tasks_then ≡ get_by_id reader id w.tasks
      unfolding get_by_id
      then-get_by_id reader =
          ap (λ (db : TaskDb). get_by_id reader id db) the_tables
          ∙ ap (λ rows. get_by_id reader id (record w.tasks { workspaces = rows }))
              (saved_in-workspaces w.tasks)

      pub saved_settings : long_form_quest_def id tasks_then ≡ some (quest_row now user id p)
      saved_settings = ap (long_form_quest_def id) the_tables ∙ saved_in-long_form_quest_def w.tasks

      -- What was saved is read back: after a successful update of the quest settings, whoever sees
      -- the workspace reads exactly the type, definition and link of the update, with its time and
      -- its author, whether there were settings before or not.
      pub update_long_quest_settings-get :
          (reader : UserInfo) (row : Workspace)
          → get_by_id reader id w.tasks ≡ ok row
          → get_long_quest_settings reader id tasks_then
            ≡ ok (record {
              workspace_id = id;
              type = p.type;
              definition = p.definition;
              url = p.url;
              modified_at = now;
              modified_by = user.user_uuid;
              modified_by_name = user.user_name;
            })
      unfolding get_long_quest_settings
      update_long_quest_settings-get reader row visible =
          let there : get_by_id reader id tasks_then ≡ ok row = then-get_by_id reader ∙ visible in
          rw (there, saved_settings) refl
