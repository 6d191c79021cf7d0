-- ===== src/Workspaces/World.antt =====
-- A request of api/src/workspaces, api/src/users and api/src/teams works in two sessions, one of the
-- task database and one of the OSM database (api/core/database.py), which commit and roll back on
-- their own, and evicts users from the cache of api/core/security.py, which no rollback restores.
use workspaces_backend.Base.{Dict, erase}
use workspaces_backend.Core.{
  Session, Action, Result, ok, err, Error, integrity_error, http, multiple_results_found,
  invalid_request_error,
}
use workspaces_backend.Security.UserInfo.{UserInfo}
use workspaces_backend.Tasking.Schema.{Uuid}
use workspaces_backend.Workspaces.Schema.{TaskDb, OsmDb}

pub record World : Type 0 where
  pub tasks : TaskDb
  pub osm : OsmDb
  pub user_info_cache : Dict UserInfo

-- `task_session.commit()`
unfoldable pub commit_tasks : Action World (Unit {0})
commit_tasks s = (ok tt, record s { committed = record s.committed { tasks = s.working.tasks } })

-- `osm_session.commit()`
unfoldable pub commit_osm : Action World (Unit {0})
commit_osm s = (ok tt, record s { committed = record s.committed { osm = s.working.osm } })

-- `except IntegrityError: await self.session.rollback(); raise …`, in the task session
abbrev pub rolled_back_tasks :
    {A : Type 0} → Error → Result A × Session World → Result A × Session World
rolled_back_tasks e (err (integrity_error c), s) =
    (err e, record s { working = record s.working { tasks = s.committed.tasks } })
rolled_back_tasks e (ok a, s) = (ok a, s)
rolled_back_tasks e (err (http x), s) = (err (http x), s)
rolled_back_tasks e (err multiple_results_found, s) = (err multiple_results_found, s)
rolled_back_tasks e (err invalid_request_error, s) = (err invalid_request_error, s)

unfoldable pub rolling_back_tasks : {A : Type 0} → Error → Action World A → Action World A
rolling_back_tasks e m s = rolled_back_tasks e (m s)

-- `evict_user_from_cache(uid)`
abbrev pub evicted : Uuid → World → World
evicted uid w = record w { user_info_cache = erase uid w.user_info_cache }

unfoldable pub evict_user_from_cache : Uuid → Action World (Unit {0})
evict_user_from_cache uid s =
    (ok tt, record { committed = evicted uid s.committed; working = evicted uid s.working })

-- A statement on one of the databases.
abbrev pub on_tasks : (TaskDb → TaskDb) → World → World
on_tasks f w = record w { tasks = f w.tasks }

abbrev pub on_osm : (OsmDb → OsmDb) → World → World
on_osm f w = record w { osm = f w.osm }

-- The sessions of a request that begins.
abbrev pub begun : World → Session World
begun w = record { committed = w; working = w }
