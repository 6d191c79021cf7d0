-- ===== src/Workspaces/Queries.antt =====
-- `WorkspaceRepository` of api/src/workspaces/repository.py: creating, reading, changing and
-- deleting workspaces.
use workspaces_backend.Base.{
  ℕ, ◌+◌, Bool, true, false, ◌&&◌, ◌||◌, not, ◌==◌, if◌then◌else◌, List, [], ◌∷◌, ◌++◌, Option,
  none, some, filter, any, update_where, delete_where, length, codes_eq,
}
use workspaces_backend.Core.{
  Result, ok, err, Action, ◌>>=◌, ◌>>◌, pure, query, raise_if, execute, integrity_error,
  forbidden_exception, not_found_exception, already_exists_exception, scalar_one_or_raise,
  scalar_one_or_none,
}
use workspaces_backend.Security.UserInfo.{UserInfo, contains, get_project_group_ids}
use workspaces_backend.Tasking.Schema.{Datetime}
use workspaces_backend.Workspaces.Schema.{
  Workspace, WorkspaceCreate, WorkspacePatch, hidden, TaskDb, is_tdei_dataset, WorkspaceLongQuest,
  WorkspaceImagery,
}
use workspaces_backend.Workspaces.World.{World, on_tasks, commit_tasks, rolling_back_tasks}

-- `Workspace.tdeiProjectGroupId.in_(current_user.getProjectGroupIds())`
abbrev pub owns : UserInfo → Workspace → Bool
owns user w = contains w.tdei_project_group_id (get_project_group_ids user)

abbrev pub is_workspace : UserInfo → ℕ → Workspace → Bool
is_workspace user workspace_id w = w.id == workspace_id && owns user w

-- `WorkspaceRepository.getById`
unfoldable pub get_by_id : UserInfo → ℕ → TaskDb → Result Workspace
get_by_id user workspace_id db =
    scalar_one_or_raise (not_found_exception "Workspace with id {workspace_id} not found")
      (filter (is_workspace user workspace_id) db.workspaces)

unfoldable pub get_all : UserInfo → TaskDb → List Workspace
get_all user db = filter (owns user) db.workspaces

abbrev pub has_title : List ℕ → ℕ → Workspace → Bool
has_title title group w = codes_eq w.title title && w.tdei_project_group_id == group

abbrev is_absent : {A : Type 0} → Result (Option A) → Result Bool
is_absent (ok none) = ok true
is_absent (ok (some _)) = ok false
is_absent (err e) = err e

unfoldable pub is_name_available : UserInfo → List ℕ → ℕ → Action World Bool
is_name_available user title group = do
  raise_if (not (contains group (get_project_group_ids user))) (
      forbidden_exception
        "User does not have permissions to check workspace names in that project group.")
  query (λ w. is_absent (scalar_one_or_none (filter (has_title title group) w.tasks.workspaces)))

-- the row that `create` builds, with the id of the sequence
abbrev pub new_workspace : Datetime → UserInfo → WorkspaceCreate → ℕ → Workspace
new_workspace now user d id = record {
  id = id;
  type = d.type;
  title = d.title;
  description = d.description;
  tdei_project_group_id = d.tdei_project_group_id;
  tdei_record_id = d.tdei_record_id;
  tdei_service_id = d.tdei_service_id;
  tdei_metadata = d.tdei_metadata;
  created_at = now;
  created_by = user.user_uuid;
  created_by_name = user.user_name;
  updated_at = some now;
  external_app_access = hidden;
  auto_flag_review = false;
  import_status = some (if is_tdei_dataset d then "in-progress" else "NA");
  override_conflicts = some false;
}

abbrev pub has_id : ℕ → Workspace → Bool
has_id id w = w.id == id

-- `self.session.add(workspace)` and its INSERT, under the primary key
unfoldable pub insert_workspace : Workspace → Action World (Unit {0})
insert_workspace row s =
    if any (has_id row.id) s.working.tasks.workspaces
    then (err (integrity_error "workspaces_pkey"), s)
    else (
      ok tt,
      record s {
        working =
            on_tasks
              (λ db. record db {
                workspaces = db.workspaces ++ row ∷ [];
                next_workspace_id = db.next_workspace_id + 1;
              })
              s.working;
      },
    )

unfoldable pub create_workspace_row : Datetime → UserInfo → WorkspaceCreate → Action World Workspace
create_workspace_row now user d = do
  raise_if (not (contains d.tdei_project_group_id (get_project_group_ids user))) (
      forbidden_exception
        "User does not have permissions to create a workspace in that project group.")
  rolling_back_tasks (already_exists_exception "Workspace with ID {workspace.id} already exists") do
    id ← query (λ w. ok w.tasks.next_workspace_id)
    let row = new_workspace now user d id
    insert_workspace row
    commit_tasks
    pure row

-- a field of `model_dump(exclude_unset=True)` on a column that may be null
abbrev pub set_or : {A : Type 0} → Option A → A → A
set_or none old = old
set_or (some new) old = new

-- a field on a column that may not
abbrev pub set_value : {A : Type 0} → Option (Option A) → A → A
set_value none old = old
set_value (some none) old = old
set_value (some (some new)) old = new

abbrev pub set_nullable : {A : Type 0} → Option (Option A) → Option A → Option A
set_nullable = set_or

abbrev pub is_null : {A : Type 0} → Option (Option A) → Bool
is_null none = false
is_null (some none) = true
is_null (some (some _)) = false

-- a null for a column that may not be null
unfoldable pub violates_not_null : WorkspacePatch → Bool
violates_not_null d = is_null d.title || is_null d.external_app_access || is_null d.auto_flag_review

unfoldable pub patched : Datetime → WorkspacePatch → Workspace → Workspace
patched now d w = record w {
  title = set_value d.title w.title;
  description = set_nullable d.description w.description;
  external_app_access = set_value d.external_app_access w.external_app_access;
  auto_flag_review = set_value d.auto_flag_review w.auto_flag_review;
  override_conflicts = set_nullable d.override_conflicts w.override_conflicts;
  updated_at = some now;
}

abbrev pub is_one : ℕ → Bool
is_one n = n == 1

-- `result.rowcount` of an UPDATE or a DELETE under this condition
abbrev pub row_count : {A : Type 0} → (A → Bool) → List A → ℕ
row_count p rows = length (filter p rows)

-- `WorkspaceRepository.update`
unfoldable pub update_workspace_row :
    Datetime → UserInfo → ℕ → WorkspacePatch → Action World Workspace
update_workspace_row now user workspace_id d = do
  count ← query (λ w. ok (row_count (is_workspace user workspace_id) w.tasks.workspaces))
  raise_if (not (count == 0) && violates_not_null d) (integrity_error "not_null")
  execute (
      on_tasks (λ db. record db {
        workspaces = update_where (is_workspace user workspace_id) (patched now d) db.workspaces;
      }))
  raise_if (not (is_one count))
      (not_found_exception "Update failed for workspace id {workspace_id}")
  commit_tasks
  query (λ w. get_by_id user workspace_id w.tasks)

abbrev pub quest_of : ℕ → WorkspaceLongQuest → Bool
quest_of workspace_id q = q.workspace_id == workspace_id

abbrev pub imagery_of : ℕ → WorkspaceImagery → Bool
imagery_of workspace_id i = i.workspace_id == workspace_id

-- The foreign keys of `workspaces_long_quests` and `workspaces_imagery`, which do not cascade; the
-- statement is a bulk DELETE, so the relationships' cascades do not apply.
unfoldable pub is_referenced : ℕ → TaskDb → Bool
is_referenced workspace_id db =
    any (quest_of workspace_id) db.long_quests || any (imagery_of workspace_id) db.imagery

-- `WorkspaceRepository.delete`
unfoldable pub delete_workspace_row : UserInfo → ℕ → Action World (Unit {0})
delete_workspace_row user workspace_id = do
  count ← query (λ w. ok (row_count (is_workspace user workspace_id) w.tasks.workspaces))
  referenced ← query (λ w. ok (is_referenced workspace_id w.tasks))
  raise_if (not (count == 0) && referenced) (integrity_error "workspace_id_fkey")
  execute (
      on_tasks (λ db. record db {
        workspaces = delete_where (is_workspace user workspace_id) db.workspaces;
      }))
  raise_if (not (is_one count))
      (not_found_exception "Workspace delete failed for id {workspace_id}")
  commit_tasks
