-- ===== src/Workspaces/Settings.antt =====
-- Quest and imagery settings of a workspace: `save_longform_quest`, `resolve_quest_def` and
-- `save_imagery_def` of api/src/workspaces/repository.py, and `validate_quest_settings` of
-- api/src/workspaces/schemas.py.
use Prim.Native.String.{String}
use workspaces_backend.Base.{
  ℕ, Bool, true, false, ◌==◌, if◌then◌else◌, List, [], ◌∷◌, ◌++◌, Option, none, some, ◌&&◌, not,
  update_where, any, is_blank, strip,
}
use workspaces_backend.Core.{
  Result, ok, err, Action, ◌>>=◌, ◌>>◌, query, raise_if, integrity_error, execute, http_exception,
}
use workspaces_backend.Security.UserInfo.{UserInfo}
use workspaces_backend.Tasking.Schema.{Datetime}
use workspaces_backend.Workspaces.Schema.{
  QuestDefinitionType, no_quest, json, url, WorkspaceLongQuest, WorkspaceImagery,
  QuestSettingsPatch, TaskDb,
}
use workspaces_backend.Workspaces.World.{World, on_tasks, commit_tasks}
use workspaces_backend.Workspaces.Queries.{has_id, quest_of, imagery_of, row_count}

-- truth of an optional string
abbrev pub is_given : Option (List ℕ) → Bool
is_given none = false
is_given (some s) = if is_blank s then false else true

-- `s.startswith("{")`
abbrev starts_object : List ℕ → Bool
starts_object [] = false
starts_object (c ∷ _) = c == 123

abbrev pub is_object_text : Option (List ℕ) → Bool
is_object_text none = false
is_object_text (some s) = starts_object (strip s)

abbrev value_error : String → Result (Unit {0})
value_error message = err (http_exception 422 message)

abbrev refuse : Bool → String → Result (Unit {0}) → Result (Unit {0})
refuse true message later = value_error message
refuse false message later = later

abbrev require : Bool → String → Result (Unit {0}) → Result (Unit {0})
require true message later = later
require false message later = value_error message

-- `validate_quest_settings`
unfoldable pub quest_settings_error :
    QuestDefinitionType → Option (List ℕ) → Option (List ℕ) → Result (Unit {0})
quest_settings_error no_quest definition link =
    refuse (is_given definition) "'definition' field not allowed when type is NONE."
      (refuse (is_given link) "'url' field not allowed when type is NONE." (ok tt))
quest_settings_error json definition link =
    require (is_given definition) "'definition' is required when type is JSON." (
      refuse (is_given link) "'url' field not allowed when type is JSON."
        (require (is_object_text definition) "'definition' must be a JSON object." (ok tt)))
quest_settings_error url definition link =
    require (is_given link) "'url' is required when type is URL."
      (refuse (is_given definition) "'definition' field not allowed when type is URL." (ok tt))

unfoldable pub validate_quest_settings : QuestSettingsPatch → Result (Unit {0})
validate_quest_settings p = quest_settings_error p.type p.definition p.url

-- the row that an INSERT or an UPDATE leaves
abbrev pub quest_row : Datetime → UserInfo → ℕ → QuestSettingsPatch → WorkspaceLongQuest
quest_row now user workspace_id p = record {
  workspace_id = workspace_id;
  type = p.type;
  definition = p.definition;
  url = p.url;
  modified_at = now;
  modified_by = user.user_uuid;
  modified_by_name = user.user_name;
}

unfoldable pub insert_quest_if : Bool → WorkspaceLongQuest → TaskDb → TaskDb
insert_quest_if true row db = record db { long_quests = db.long_quests ++ row ∷ [] }
insert_quest_if false row db = db

-- `WorkspaceRepository.save_longform_quest`; the INSERT has a foreign key on `workspaces`.
unfoldable pub save_longform_quest :
    Datetime → UserInfo → ℕ → QuestSettingsPatch → Action World (Unit {0})
save_longform_quest now user workspace_id p = do
  count ← query (λ w. ok (row_count (quest_of workspace_id) w.tasks.long_quests))
  execute (
      on_tasks (λ db. record db {
        long_quests =
            update_where (quest_of workspace_id) (λ q. quest_row now user q.workspace_id p)
              db.long_quests;
      }))
  exists ← query (λ w. ok (any (has_id workspace_id) w.tasks.workspaces))
  raise_if (count == 0 && not exists) (integrity_error "workspaces_long_quests_workspace_id_fkey")
  execute (on_tasks (insert_quest_if (count == 0) (quest_row now user workspace_id p)))
  commit_tasks

abbrev pub imagery_row : Datetime → UserInfo → ℕ → Option (List String) → WorkspaceImagery
imagery_row now user workspace_id definition = record {
  workspace_id = workspace_id;
  definition = definition;
  modified_at = now;
  modified_by = user.user_uuid;
  modified_by_name = user.user_name;
}

unfoldable pub insert_imagery_if : Bool → WorkspaceImagery → TaskDb → TaskDb
insert_imagery_if true row db = record db { imagery = db.imagery ++ row ∷ [] }
insert_imagery_if false row db = db

-- `WorkspaceRepository.save_imagery_def`
unfoldable pub save_imagery_def :
    Datetime → UserInfo → ℕ → Option (List String) → Action World (Unit {0})
save_imagery_def now user workspace_id definition = do
  count ← query (λ w. ok (row_count (imagery_of workspace_id) w.tasks.imagery))
  execute (
      on_tasks (λ db. record db {
        imagery =
            update_where (imagery_of workspace_id)
              (λ i. imagery_row now user i.workspace_id definition) db.imagery;
      }))
  exists ← query (λ w. ok (any (has_id workspace_id) w.tasks.workspaces))
  raise_if (count == 0 && not exists) (integrity_error "workspaces_imagery_workspace_id_fkey")
  execute (on_tasks (insert_imagery_if (count == 0) (imagery_row now user workspace_id definition)))
  commit_tasks

-- `return quest.definition or None`
abbrev or_none : Option (List ℕ) → Option (List ℕ)
or_none none = none
or_none (some s) = if is_blank s then none else some s

abbrev fetched : (List ℕ → Option (List ℕ)) → Option (List ℕ) → Option (List ℕ)
fetched fetch none = none
fetched fetch (some link) = if is_blank link then none else fetch link

-- `WorkspaceRepository.resolve_quest_def`; `fetch` is none where the client is missing or fails.
unfoldable pub resolve_quest :
    (List ℕ → Option (List ℕ)) → QuestDefinitionType → WorkspaceLongQuest → Option (List ℕ)
resolve_quest fetch no_quest q = none
resolve_quest fetch json q = or_none q.definition
resolve_quest fetch url q = fetched fetch q.url

unfoldable pub resolve_quest_def :
    (List ℕ → Option (List ℕ)) → Option WorkspaceLongQuest → Option (List ℕ)
resolve_quest_def fetch none = none
resolve_quest_def fetch (some q) = resolve_quest fetch q.type q
