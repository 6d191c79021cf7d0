-- ===== src/Examples/Places.antt =====
-- Workspaces, their settings, members and teams.
use workspaces_backend.Base.{ℕ, ◌≡◌, ◌≢◌, refl, true, false, List, [], ◌∷◌, none, some, arith}
use workspaces_backend.Core.{ok, err, Result, integrity_error, run}
use workspaces_backend.Security.UserInfo.{
  UserInfo, UserInfoPgMembership, point_of_contact, is_workspace_lead, leads_a_group,
  get_project_group_ids,
}
use workspaces_backend.Tasking.Schema.{lead, validator, contributor}
use workspaces_backend.Workspaces.Schema.{
  osw, hidden, json, TaskDb, OsmDb, Workspace, WorkspaceCreate, WorkspaceTeam, WorkspaceTeamUser,
  QuestSettingsPatch, is_tdei_osw_dataset, is_tdei_pathways_dataset, is_tdei_dataset,
}
use workspaces_backend.Workspaces.World.{
  World, begun, commit_tasks, commit_osm, evict_user_from_cache, rolling_back_tasks,
}
use workspaces_backend.Workspaces.Queries.{
  get_by_id, create_workspace_row, insert_workspace, delete_workspace_row, is_referenced,
}
use workspaces_backend.Workspaces.Members.{
  assign_role, upsert_role_row, remove_role_row, remove_all_member_roles, joined, items_of,
  get_privileged_workspace_members, privileged_roles_only,
}
use workspaces_backend.Workspaces.Settings.{
  validate_quest_settings, quest_settings_error, save_longform_quest, insert_quest_if,
}
use workspaces_backend.Workspaces.Jobs.{create_job, update_job, get_any_job}
use workspaces_backend.Workspaces.Routes.{create_workspace, import_job, delete_workspace, evict_all}
use workspaces_backend.Workspaces.SettingsRoutes.{
  update_long_quest_settings, get_long_quest_settings, checked_definition,
}
use workspaces_backend.Workspaces.MemberRoutes.{assign_member_role, remove_member_role}
use workspaces_backend.Workspaces.Properties.Teams.{
  to_delete_team, perform_team, Stands, perform_team-Stands,
}
use workspaces_backend.Workspaces.Properties.Creation.{IsCreated, create_workspace-IsCreated}
use workspaces_backend.Workspaces.Properties.Deletion.{IsGone, delete_workspace-IsGone}
use workspaces_backend.Workspaces.Properties.Quests.{tasks_then, update_long_quest_settings-get}
use workspaces_backend.Workspaces.Properties.References.{update_long_quest_settings-delete}
use workspaces_backend.Workspaces.Properties.Roles.{
  given, IsChanged, assign_member_role-IsChanged, remove_member_role-IsChanged,
}

abbrev pub group : UserInfoPgMembership
group = record {
  project_group_name = "streets";
  project_group_id = 5;
  tdei_roles = point_of_contact ∷ [];
}

-- The point of contact of the group that the workspace belongs to.
abbrev pub petra : UserInfo
petra = record {
  credentials = 0;
  user_uuid = 7;
  user_name = "petra";
  token_jti = 0;
  osm_workspace_roles = [];
  accessible_workspace_ids = (5, 1 ∷ []) ∷ [];
  project_groups = group ∷ [];
}

abbrev pub place : Workspace
place = record {
  id = 1;
  type = osw;
  title = 97 ∷ [];
  description = none;
  tdei_project_group_id = 5;
  tdei_record_id = none;
  tdei_service_id = none;
  tdei_metadata = none;
  created_at = 1;
  created_by = 7;
  created_by_name = "petra";
  updated_at = none;
  external_app_access = hidden;
  auto_flag_review = false;
  import_status = none;
  override_conflicts = none;
}

abbrev tasks : TaskDb
tasks = record { workspaces = place ∷ []; long_quests = []; imagery = []; next_workspace_id = 2 }

abbrev walkers : WorkspaceTeam
walkers = record { id = 1; name = "walkers"; workspace_id = 2 }

abbrev link : WorkspaceTeamUser
link = record { team_id = 1; user_id = 3 }

abbrev osm : OsmDb
osm = record {
  users =
      record { id = 3; auth_uid = 7; display_name = "petra" }
      ∷ record { id = 4; auth_uid = 8; display_name = "rosa" }
      ∷ [];
  user_workspace_roles =
      record { user_auth_uid = 8; workspace_id = 1; role = lead }
      ∷ record { user_auth_uid = 8; workspace_id = 2; role = validator }
      ∷ [];
  teams = walkers ∷ [];
  team_users = link ∷ [];
  jobs = [];
  next_team_id = 2;
  next_job_id = 1;
}

abbrev world : World
world = record { tasks = tasks; osm = osm; user_info_cache = (8, petra) ∷ [] }

-- A LEAD of one workspace deletes a team of another.
perform_team-Stands_example :
    Stands walkers (link ∷ []) (perform_team petra 1 (to_delete_team 1) world).osm
perform_team-Stands_example =
    perform_team-Stands walkers (link ∷ []) 1 (λ e. omega arith) petra (to_delete_team 1) world
      (refl, refl, omega arith)

abbrev wanted : WorkspaceCreate
wanted = record {
  from_form = true;
  type = osw;
  title = 98 ∷ [];
  description = none;
  tdei_project_group_id = 5;
  tdei_record_id = none;
  tdei_service_id = none;
  tdei_metadata = none;
}

created : (create_workspace (ok tt) (ok tt) 9 petra wanted (begun world)).0 ≡ ok (2, some 1)
unfolding create_workspace create_workspace_row insert_workspace rolling_back_tasks commit_tasks
    assign_role commit_osm import_job is_tdei_osw_dataset is_tdei_pathways_dataset is_tdei_dataset
    create_job update_job get_any_job evict_user_from_cache get_project_group_ids upsert_role_row
    run
created = refl

create_workspace-IsCreated_example :
    IsCreated petra (2, some 1) (create_workspace (ok tt) (ok tt) 9 petra wanted (begun world)).1
create_workspace-IsCreated_example =
    create_workspace-IsCreated (ok tt) (ok tt) 9 petra wanted world (2, some 1) created

deleted : (delete_workspace petra 1 (begun world)).0 ≡ ok tt
unfolding delete_workspace delete_workspace_row is_workspace_lead leads_a_group
    get_project_group_ids remove_all_member_roles evict_all get_privileged_workspace_members
    is_referenced joined items_of commit_tasks commit_osm evict_user_from_cache run
deleted = refl

delete_workspace-IsGone_example : IsGone petra 1 world (delete_workspace petra 1 (begun world)).1
delete_workspace-IsGone_example = delete_workspace-IsGone petra 1 world deleted

abbrev quest : QuestSettingsPatch
quest = record { type = json; definition = some (123 ∷ 125 ∷ []); url = none }

abbrev any_schema : List ℕ → Result (Unit {0})
any_schema _ = ok tt

saved : (update_long_quest_settings any_schema 9 petra 1 quest (begun world)).0 ≡ ok tt
unfolding update_long_quest_settings validate_quest_settings quest_settings_error is_workspace_lead
    leads_a_group checked_definition save_longform_quest insert_quest_if get_by_id
    get_project_group_ids commit_tasks rolling_back_tasks run
saved = refl

visible : get_by_id petra 1 tasks ≡ ok place
unfolding get_by_id get_project_group_ids
visible = refl

leads : is_workspace_lead petra 1 ≡ true
unfolding is_workspace_lead leads_a_group
leads = refl

update_long_quest_settings-get_example :
    get_long_quest_settings petra 1 (tasks_then 9 petra 1 quest any_schema world saved)
    ≡ ok (record {
      workspace_id = 1;
      type = json;
      definition = some (123 ∷ 125 ∷ []);
      url = none;
      modified_at = 9;
      modified_by = 7;
      modified_by_name = "petra";
    })
update_long_quest_settings-get_example =
    update_long_quest_settings-get 9 petra 1 quest any_schema world saved petra place visible

update_long_quest_settings-delete_example :
    delete_workspace petra 1
      (begun (update_long_quest_settings any_schema 9 petra 1 quest (begun world)).1.committed)
    ≡ (
      err (integrity_error "workspace_id_fkey"),
      begun (update_long_quest_settings any_schema 9 petra 1 quest (begun world)).1.committed,
    )
update_long_quest_settings-delete_example =
    update_long_quest_settings-delete 9 petra 1 quest any_schema world saved petra place leads
      visible

assigned : (assign_member_role petra 1 8 validator (begun world)).0 ≡ ok tt
unfolding assign_member_role privileged_roles_only is_workspace_lead leads_a_group get_by_id
    get_project_group_ids assign_role upsert_role_row commit_osm evict_user_from_cache run
assigned = refl

assign_member_role-IsChanged_example :
    (validator ≢ contributor)
    × IsChanged 1 8 world
        (given 1 8 validator ∷ [])
        (assign_member_role petra 1 8 validator (begun world)).1
assign_member_role-IsChanged_example =
    assign_member_role-IsChanged petra 1 8 world validator (omega arith) assigned

removed : (remove_member_role petra 1 8 (begun world)).0 ≡ ok tt
unfolding remove_member_role is_workspace_lead leads_a_group get_by_id get_project_group_ids
    remove_role_row commit_osm evict_user_from_cache run
removed = refl

remove_member_role-IsChanged_example :
    IsChanged 1 8 world [] (remove_member_role petra 1 8 (begun world)).1
remove_member_role-IsChanged_example = remove_member_role-IsChanged petra 1 8 world removed
