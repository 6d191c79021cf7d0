-- ===== src/Workspaces/Schema.antt =====
-- The rows and request bodies of api/src/workspaces/schemas.py, api/src/users/schemas.py,
-- api/src/teams/schemas.py and api/src/workspaces/jobs/schemas.py. UUIDs and instants are numbers;
-- titles and quest definitions are code points; other JSON values are only stored, as texts.
use Prim.Native.String.{String}
use workspaces_backend.Base.{ℕ, Bool, true, false, ◌&&◌, List, Option, is_some}
use workspaces_backend.Tasking.Schema.{Uuid, Datetime, RoleType}

pub data ExternalAppsDefinitionType : Type 0 where
  hidden public project_group : ExternalAppsDefinitionType

pub data WorkspaceType : Type 0 where
  osw pathways flex : WorkspaceType

abbrev pub is_osw : WorkspaceType → Bool
is_osw osw = true
is_osw _ = false

abbrev pub is_pathways : WorkspaceType → Bool
is_pathways pathways = true
is_pathways _ = false

-- `QuestDefinitionType` and `QuestDefinitionTypeName` have the same members.
pub data QuestDefinitionType : Type 0 where
  no_quest json url : QuestDefinitionType

pub record WorkspaceLongQuest : Type 0 where
  pub workspace_id : ℕ
  pub type : QuestDefinitionType
  pub definition : Option (List ℕ)
  pub url : Option (List ℕ)
  pub modified_at : Datetime
  pub modified_by : Uuid
  pub modified_by_name : String

pub record WorkspaceImagery : Type 0 where
  pub workspace_id : ℕ
  pub definition : Option (List String)
  pub modified_at : Datetime
  pub modified_by : Uuid
  pub modified_by_name : String

pub record Workspace : Type 0 where
  pub id : ℕ
  pub type : WorkspaceType
  pub title : List ℕ
  pub description : Option String
  pub tdei_project_group_id : ℕ
  pub tdei_record_id : Option ℕ
  pub tdei_service_id : Option ℕ
  pub tdei_metadata : Option String
  pub created_at : Datetime
  pub created_by : Uuid
  pub created_by_name : String
  pub updated_at : Option Datetime
  pub external_app_access : ExternalAppsDefinitionType
  pub auto_flag_review : Bool
  pub import_status : Option String
  pub override_conflicts : Option Bool

-- `from_form` tells a `WorkspaceCreateWithForm`, whose override of `isTDEIDataset` asks for the
-- project group alone; the group is never absent.
pub record WorkspaceCreate : Type 0 where
  pub from_form : Bool
  pub type : WorkspaceType
  pub title : List ℕ
  pub description : Option String
  pub tdei_project_group_id : ℕ
  pub tdei_record_id : Option ℕ
  pub tdei_service_id : Option ℕ
  pub tdei_metadata : Option String

abbrev dataset : Bool → Option ℕ → Bool
dataset true record_id = true
dataset false record_id = is_some record_id

unfoldable pub is_tdei_dataset : WorkspaceCreate → Bool
is_tdei_dataset d = dataset d.from_form d.tdei_record_id

unfoldable pub is_tdei_osw_dataset : WorkspaceCreate → Bool
is_tdei_osw_dataset d = is_osw d.type && is_tdei_dataset d

unfoldable pub is_tdei_pathways_dataset : WorkspaceCreate → Bool
is_tdei_pathways_dataset d = is_pathways d.type && is_tdei_dataset d

-- An unset field is none; a field that is set to null is `some none`.
pub record WorkspacePatch : Type 0 where
  pub title : Option (Option (List ℕ))
  pub description : Option (Option String)
  pub external_app_access : Option (Option ExternalAppsDefinitionType)
  pub auto_flag_review : Option (Option Bool)
  pub override_conflicts : Option (Option Bool)

pub record QuestSettingsPatch : Type 0 where
  pub type : QuestDefinitionType
  pub definition : Option (List ℕ)
  pub url : Option (List ℕ)

pub record QuestSettingsResponse : Type 0 where
  pub workspace_id : ℕ
  pub type : QuestDefinitionType
  pub definition : Option (List ℕ)
  pub url : Option (List ℕ)
  pub modified_at : Datetime
  pub modified_by : Uuid
  pub modified_by_name : String

-- A row of `users` in the OSM database.
pub record OsmUser : Type 0 where
  pub id : ℕ
  pub auth_uid : Uuid
  pub display_name : String

pub record WorkspaceUserRole : Type 0 where
  pub user_auth_uid : Uuid
  pub workspace_id : ℕ
  pub role : RoleType

pub record WorkspaceUserRoleItem : Type 0 where
  pub id : ℕ
  pub auth_uid : Uuid
  pub display_name : String
  pub role : RoleType

pub record WorkspaceTeam : Type 0 where
  pub id : ℕ
  pub name : String
  pub workspace_id : ℕ

pub record WorkspaceTeamUser : Type 0 where
  pub team_id : ℕ
  pub user_id : ℕ

pub record WorkspaceTeamItem : Type 0 where
  pub id : ℕ
  pub name : String
  pub member_count : ℕ

-- The import request that a job carries, as far as the model goes.
pub record JobRequest : Type 0 where
  pub workspace_id : ℕ
  pub tdei_token : ℕ
  pub data_type : WorkspaceType
  pub source : Option ℕ
  pub unique_job_id : Option ℕ

pub record Job : Type 0 where
  pub id : ℕ
  pub job_type : String
  pub status : String
  pub request : JobRequest
  pub workspace_id : ℕ

-- The task database.
pub record TaskDb : Type 0 where
  pub workspaces : List Workspace
  pub long_quests : List WorkspaceLongQuest
  pub imagery : List WorkspaceImagery
  pub next_workspace_id : ℕ

-- The OSM database, as far as this code goes.
pub record OsmDb : Type 0 where
  pub users : List OsmUser
  pub user_workspace_roles : List WorkspaceUserRole
  pub teams : List WorkspaceTeam
  pub team_users : List WorkspaceTeamUser
  pub jobs : List Job
  pub next_team_id : ℕ
  pub next_job_id : ℕ
