-- ===== src/Lib.antt =====
-- Verification of workspaces-backend.
--
-- The backend serves mapping workspaces. api/main.py is a proxy in front of the OSM service: it
-- finds out which workspace a request is for, checks it against the caller's permissions and sends
-- it on. api/core/security.py validates the caller's token, derives the permissions (`UserInfo`)
-- from two databases and TDEI, caches them, and mirrors the token for the OSM service. The routers
-- api/src/workspaces, users and teams keep workspaces in the task database and roles, teams and
-- jobs in the OSM database. The tasking service lets a workspace run mapping projects: a project
-- has an area of interest and tasks, users lock a task, map or review it and submit it, and a
-- project goes from draft to open to done. Its code is two repositories,
-- api/src/tasking/tasks/repository.py (`TaskingTaskRepository`) and
-- api/src/tasking/projects/repository.py (`TaskingProjectRepository`), which share the tables of
-- api/src/tasking/*/schemas.py. All parts derive what a caller may do from `UserInfo`, and answer
-- errors with HTTP exceptions (api/core/exceptions.py) in a session of api/core/database.py, which
-- drops what was not committed.
--
-- Files:
--   Base: lists with natural-number lengths, the statements UPDATE, DELETE and SELECT on lists of
--     rows, dictionaries, integers, and the Python tests that the code uses.
--   Core: exceptions as values; a session as two views of the tables, the committed one and its
--     own, with `query`, `execute`, `commit` and `rolling_back` as the steps of a do block; rules
--     to reason about a handler step by step (Core/Rules) and about what it keeps
--     (Core/Preservation).
--   Security: UserInfo has the role derivation of `UserInfo`; Credentials has `_token_from_basic`
--     and `TDEIHTTPBearer`, and Placement what they promise; Rejections has
--     `_log_rejected_token`; Members has `fetch_project_group_users`.
--   Security/Tokens: State (the databases, the cache and the log), Bridge (`_ensure_osm_user`,
--     `_ensure_osm_oauth_application`, `_bridge_token_to_osm`, `_revoke_osm_token`), Permissions
--     (`_validate_token_uncached`), Validation (`validate_token`); Keeping, Caching, Rotation,
--     Derivation and Failures are about them.
--   Proxy: Text (`int` and `str`), Paths (the regular expressions), Encoding (`_accepts_deflate`),
--     Headers, Resolve (which workspace, and whether the caller may have it), Review (the review
--     tag), Forward (`catch_all`), Capabilities (`capabilities`).
--   Workspaces: Schema (rows and bodies), World (two sessions and the cache), Queries
--     (`WorkspaceRepository`), Settings (its quest and imagery settings, with their validation),
--     Members (`UserRepository`), Teams (`WorkspaceTeamRepository`), Jobs (`JobRepository`), Routes
--     and SettingsRoutes (api/src/workspaces/routes.py), MemberRoutes (api/src/users/routes.py and
--     api/src/teams/routes.py).
--   Tasking/Values, Dtos, Schema: enumerations, responses and rows. `Db` is all tables together.
--   Tasking/Geometry: what shapely, geoalchemy2 and hashlib do, as a parameter.
--   Tasking/Tasks: Queries (`_get_project`, `_get_task`, `_get_active_lock`, `_project_role`,
--     `_audit`), Response (`_to_task_response`), Locks (`lock_task`, `unlock_task`, `extend_lock`,
--     `reset_task`), Submit (`submit`, `submit_changeset`), Save (`validate`, `save`),
--     Listing (`list_tasks`).
--   Tasking/Projects: Queries, Lifecycle (`soft_delete`, `activate`, `close`, `reset`), Edit
--     (`patch`, `upload_aoi`, `delete_aoi`), Provision (users from TDEI), Roles (the role
--     endpoints), Create (`create`).
--   Tasking/Service: the writing operations as requests, and the tables that they lead to;
--     Tasking/Routes: the endpoints of api/src/tasking/*/routes.py that call them.
--   Tasking/Invariant, Safety: what holds between requests, and the proofs for each operation.
--   Tasking/Properties, Proxy/Properties, Workspaces/Properties: what makes each part correct.
--   Examples: a small workspace in which the theorems are applied.
--
-- Reading the model: user ids, geometries and floats are numbers, since the code only compares
-- them or hands them on; so are tokens, token ids and scopes. Times are seconds; a name, a path or
-- a header is its code points. An error keeps its status code and a fixed text: values that the
-- code formats into a message, and the objects that three conflict and validation errors carry
-- beside it, are left out. A request runs against the tables as they stand; for `lock_task`,
-- whatever other transactions commit between its reads and its insert is an argument. The two
-- databases of a workspace request are one state whose parts commit and roll back on their own;
-- the cache, the rejection log and their changes survive a rollback. What the TTL cache drops is a
-- function that each access passes through, what PyJWT makes of a token is an argument of the call,
-- and so is what TDEI answers. What the file system, the message bus and a schema check answer are
-- arguments too. `Python` in Proxy/Forward gathers the digits outside ASCII, the sign of a float,
-- the spelling of UUIDs and tokens, and the parser and printer of ElementTree; the interpreter's
-- limit on the digits of a number is left out. Workspace ids are not negative. A statement fails only by the
-- constraints that are modelled, except the UPDATE and the commit of a revocation, whose outcome is
-- an argument of the call. Loops are over lists, except the one of `fetch_project_group_users`, which runs on fuel, one unit for each page,
-- with a theorem that enough of it is given, and `str`, where a number has no more digits than its
-- successor says.
--
-- Not modelled: the lists of projects and roles, grid generation, the audit queries, the tasking
-- routes that only read, the SQL of the OSM repository (bounding boxes, resolving changesets,
-- dropping table copies), the download of JSON schemas, configuration, logging and migrations; nor
-- the interleaving of two requests, except in `lock_task`. The base64 and UTF-8 decoding of Basic
-- credentials is an argument of the model.
pub mod Base
pub mod Core
pub mod Security
pub mod Tasking
pub mod Workspaces
pub mod Proxy
pub mod Examples
