-- ===== src/Tasking/Properties/Atomicity.antt =====
-- A save that fails: `save` of api/src/tasking/tasks/repository.py.
use Prim.Native.String.{String}
use workspaces_backend.Base.{ℕ, ◌≡◌, refl, Option, none, some}
use workspaces_backend.Core.{
  err, Error, Ends, bind_query, bind_raise_if, bind_execute, bind_commit, end_query, end_pure,
  query,
}
use workspaces_backend.Security.UserInfo.{UserInfo}
use workspaces_backend.Tasking.Schema.{Db, TaskingProject, SaveRecord, Datetime, Wkb}
use workspaces_backend.Tasking.Geometry.{Shapely}
use workspaces_backend.Tasking.Tasks.Save.{SaveTasksRequest, save, save_new, replay, is_grid}
use workspaces_backend.Tasking.Service.{opened, after}

module _ (lib : Shapely) (now : Datetime) (w i : ℕ) (user : UserInfo) (body : SaveTasksRequest)
    (key : Option String) where
  save-Ends :
      (db : Db) (e : Error)
      → Ends (λ r. r.0 ≡ err e → r.1.committed ≡ db) (save lib now w i user body key) (opened db)
  unfolding save save_new
  save-Ends db e =
      bind_query _ _
        (λ project _.
          bind_raise_if _ _ _
            (λ _.
              bind_query _ _
                (λ aoi _. bind_query _ _ (λ stored _. rest project aoi stored) (λ _ _. refl))
                (λ _ _. refl))
            (λ _. refl))
        (λ _ _. refl)
    where
      rest :
          (project : TaskingProject) (aoi : Wkb) (stored : Option SaveRecord)
          → Ends
              (λ r. r.0 ≡ err e → r.1.committed ≡ db)
              (elim stored [
                | some row ↦
                    query (λ _. replay (lib.body_hash (is_grid body.source) body.features) row)
                | none ↦
                    save_new lib now project aoi user body key
                      (lib.body_hash (is_grid body.source) body.features)
              ])
              (opened db)
      rest project aoi (some row) = end_query _ (λ _ _. refl)
      rest project aoi none =
          bind_query _ _
            (λ _ _.
              bind_raise_if _ _ _
                (λ _.
                  bind_query _ _
                    (λ ts _. bind_execute _ _ (
                      bind_execute _ _ (
                        bind_execute _ _ (
                          bind_query _ _
                            (λ responses _.
                              bind_execute _ _ (bind_commit _ (end_pure _ (λ h. absurd (cc h)))))
                            (λ _ _. refl)))))
                    (λ _ _. refl))
                (λ _. refl))
            (λ _ _. refl)

  -- A save inserts all of its tasks or none: where it answers with an error, whichever feature or
  -- statement caused it, the committed tables are as they were.
  pub save-atomic :
      (db : Db) (e : Error)
      → (save lib now w i user body key (opened db)).0 ≡ err e
      → after (save lib now w i user body key) db ≡ db
  save-atomic db e h = (save-Ends db e).at h
