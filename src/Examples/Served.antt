-- ===== src/Examples/Served.antt =====
-- Requests through the endpoints of the tasking service.
use workspaces_backend.Base.{◌≡◌, refl, false, ◌⊎◌, [], ◌∷◌}
use workspaces_backend.Tasking.Service.{to_close, to_unlock, perform}
use workspaces_backend.Security.UserInfo.{UserInfo, is_workspace_lead, leads_a_group}
use workspaces_backend.Tasking.Routes.{serve}
use workspaces_backend.Tasking.Properties.Guards.{IsAllowed}
use workspaces_backend.Tasking.Properties.Access.{serve-IsAllowed}
use workspaces_backend.Tasking.Properties.Ownership.{serve-Projects}
use workspaces_backend.Workspaces.Schema.{TaskDb}
use workspaces_backend.Examples.Data.{segments, exact, db, project_path, task_path}
use workspaces_backend.Examples.Places.{petra, place, group}

abbrev tables : TaskDb
tables = record { workspaces = place ∷ []; long_quests = []; imagery = []; next_workspace_id = 2 }

serve-IsAllowed_example :
    (serve tables petra exact segments 9 (to_close project_path) db ≡ db)
    ⊎ (IsAllowed tables petra db (to_close project_path)
        × (serve tables petra exact segments 9 (to_close project_path) db
            ≡ perform exact segments petra 9 (to_close project_path) db))
serve-IsAllowed_example = serve-IsAllowed tables petra exact segments 9 (to_close project_path) db

-- Somebody of the workspace's group who leads nothing, and who holds the lock on the task.
abbrev ulf : UserInfo
ulf = record petra { user_uuid = 8; project_groups = record group { tdei_roles = [] } ∷ [] }

serve-Projects_example :
    (serve tables ulf exact segments 9 (to_unlock task_path false) db).projects ≡ db.projects
serve-Projects_example =
    serve-Projects tables ulf exact segments 9 (to_unlock task_path false) db
      (unfold is_workspace_lead leads_a_group in refl)
