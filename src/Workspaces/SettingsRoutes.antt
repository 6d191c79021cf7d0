-- ===== src/Workspaces/SettingsRoutes.antt =====
-- api/src/workspaces/routes.py: the endpoints for quest and imagery settings. What jsonschema says of
-- a definition is an argument.
use Prim.Native.String.{String}
use workspaces_backend.Base.{ℕ, not, List, [], ◌∷◌, Option, none, some, filter}
use workspaces_backend.Core.{Result, ok, err, Action, ◌>>◌, query, raise_if, http_exception}
use workspaces_backend.Security.UserInfo.{UserInfo, is_workspace_lead}
use workspaces_backend.Tasking.Schema.{Datetime}
use workspaces_backend.Workspaces.Schema.{
  Workspace, WorkspaceLongQuest, WorkspaceImagery, QuestDefinitionType, no_quest, json, url,
  QuestSettingsPatch, QuestSettingsResponse, TaskDb,
}
use workspaces_backend.Workspaces.World.{World}
use workspaces_backend.Workspaces.Queries.{get_by_id, quest_of, imagery_of}
use workspaces_backend.Workspaces.Settings.{
  validate_quest_settings, save_longform_quest, save_imagery_def, resolve_quest_def,
}

-- a relationship with `uselist=False`
abbrev pub related : {A : Type 0} → List A → Option A
related [] = none
related (x ∷ _) = some x

-- `workspace.longFormQuestDef`
unfoldable pub long_form_quest_def : ℕ → TaskDb → Option WorkspaceLongQuest
long_form_quest_def workspace_id db = related (filter (quest_of workspace_id) db.long_quests)

-- `workspace.imageryListDef`
unfoldable pub imagery_list_def : ℕ → TaskDb → Option WorkspaceImagery
imagery_list_def workspace_id db = related (filter (imagery_of workspace_id) db.imagery)

abbrev pub settings_of : Workspace → ℕ → Option WorkspaceLongQuest → QuestSettingsResponse
settings_of w workspace_id none = record {
  workspace_id = workspace_id;
  type = no_quest;
  definition = none;
  url = none;
  modified_at = w.created_at;
  modified_by = w.created_by;
  modified_by_name = "";
}
settings_of w workspace_id (some q) = record {
  workspace_id = q.workspace_id;
  type = q.type;
  definition = q.definition;
  url = q.url;
  modified_at = q.modified_at;
  modified_by = q.modified_by;
  modified_by_name = q.modified_by_name;
}

abbrev found : {A B : Type 0} → Result A → (A → Result B) → Result B
found (ok a) k = k a
found (err e) k = err e

unfoldable pub get_long_quest_settings : UserInfo → ℕ → TaskDb → Result QuestSettingsResponse
get_long_quest_settings user workspace_id db =
    found (get_by_id user workspace_id db)
      (λ w. ok (settings_of w workspace_id (long_form_quest_def workspace_id db)))

-- `get_long_quest_def`; none is the answer 204.
unfoldable pub get_long_quest_def :
    (List ℕ → Option (List ℕ)) → UserInfo → ℕ → TaskDb → Result (Option (List ℕ))
get_long_quest_def fetch user workspace_id db =
    found (get_by_id user workspace_id db)
      (λ w. ok (resolve_quest_def fetch (long_form_quest_def workspace_id db)))

-- `definition is None` for a quest of type JSON, then `validate_quest_definition_schema`
unfoldable pub checked_definition :
    (List ℕ → Result (Unit {0})) → QuestDefinitionType → Option (List ℕ) → Result (Unit {0})
checked_definition schema json none =
    err (http_exception 400 "'definition' is required for JSON quest type.")
checked_definition schema json (some definition) = schema definition
checked_definition schema no_quest definition = ok tt
checked_definition schema url definition = ok tt

-- `update_long_quest_settings`; the body is validated before the handler runs.
unfoldable pub update_long_quest_settings :
    (List ℕ → Result (Unit {0}))
    → Datetime
    → UserInfo
    → ℕ
    → QuestSettingsPatch
    → Action World (Unit {0})
update_long_quest_settings schema now user workspace_id p = do
  query (λ _. validate_quest_settings p)
  raise_if (not (is_workspace_lead user workspace_id))
      (http_exception 403 "User does not have permission to edit this workspace")
  query (λ _. checked_definition schema p.type p.definition)
  save_longform_quest now user workspace_id p

abbrev imagery_or : Workspace → ℕ → Option WorkspaceImagery → WorkspaceImagery
imagery_or w workspace_id none = record {
  workspace_id = workspace_id;
  definition = some [];
  modified_at = w.created_at;
  modified_by = w.created_by;
  modified_by_name = "";
}
imagery_or w workspace_id (some i) = i

unfoldable pub get_imagery_settings : UserInfo → ℕ → TaskDb → Result WorkspaceImagery
get_imagery_settings user workspace_id db =
    found (get_by_id user workspace_id db)
      (λ w. ok (imagery_or w workspace_id (imagery_list_def workspace_id db)))

-- `if imagery_data.definition: await validate_imagery_definition_schema(…)`
unfoldable pub checked_imagery :
    (List String → Result (Unit {0})) → Option (List String) → Result (Unit {0})
checked_imagery schema none = ok tt
checked_imagery schema (some []) = ok tt
checked_imagery schema (some (x ∷ xs)) = schema (x ∷ xs)

unfoldable pub update_imagery_settings :
    (List String → Result (Unit {0}))
    → Datetime
    → UserInfo
    → ℕ
    → Option (List String)
    → Action World (Unit {0})
update_imagery_settings schema now user workspace_id definition = do
  raise_if (not (is_workspace_lead user workspace_id))
      (http_exception 403 "User does not have permission to edit this workspace")
  query (λ _. checked_imagery schema definition)
  save_imagery_def now user workspace_id definition
