-- ===== src/Tasking/Properties/Saving.antt =====
-- Saving under an idempotency key: `save` of api/src/tasking/tasks/repository.py.
use workspaces_backend.Tasking.Properties.Stored.{
  set_boundary_type-get_project, replay-not_new, store_save-get_project, required_aoi-ok,
  store_save-stored_save,
}
use workspaces_backend.Tasking.Properties.Lifecycle.{get_project-id}
use Prim.Native.String.{String}
use text.Mathlib.Text.{◌==◌ as str_eq}
use workspaces_backend.Base.{
  ℕ, ◌≡◌, refl, ap, subst, ◌∙◌, Bool, true, false, not, List, none, some, ==_refl, Option, length,
  sym, arith,
}
use workspaces_backend.Core.{
  ok, Ends, bind_found, bind_pass, end_found, Result, Session, query, bind_query, bind_raise_if,
  bind_execute, bind_commit, end_pure, end_query_with,
}
use workspaces_backend.Security.UserInfo.{UserInfo}
use workspaces_backend.Tasking.Schema.{
  Db, TaskingProject, TaskingTask, Datetime, Wkb, is_draft, tasks_created, created_details,
  SaveRecord,
}
use workspaces_backend.Tasking.Geometry.{Shapely}
use workspaces_backend.Tasking.Dtos.{SaveTasksResponse}
use workspaces_backend.Tasking.Tasks.Queries.{get_project, audit}
use workspaces_backend.Tasking.Tasks.Save.{
  SaveTasksRequest, save, replay, stored_save, store_save, set_boundary_type, is_grid, required_aoi,
  save_new, insert_tasks,
}
use workspaces_backend.Tasking.Service.{opened, after}

module _ (lib : Shapely) (w i : ℕ) (body : SaveTasksRequest) (key : String) where
  -- A request with the key and the body, by this user at this time and on these tables, is answered
  -- with the stored response and changes nothing.
  abbrev pub IsReplayed : Datetime → UserInfo → SaveTasksResponse → Db → Type 0
  IsReplayed later other response db =
      save lib later w i other body (some key) (opened db)
      ≡ (ok (record response { replayed = true }, true), opened db)

  replay-IsReplayed :
      (later : Datetime) (other : UserInfo) (db : Db) (project : TaskingProject) (aoi : Wkb)
      (response : SaveTasksResponse)
      → get_project w i db ≡ ok project
      → is_draft project.status ≡ true
      → project.aoi ≡ some aoi
      → stored_save project.id (some key) db
        ≡ some (record {
          project_id = project.id;
          key = key;
          body_hash = lib.body_hash (is_grid body.source) body.features;
          response = response;
        })
      → Ends
          (λ r. r ≡ (ok (record response { replayed = true }, true), opened db))
          (save lib later w i other body (some key))
          (opened db)
  unfolding save replay
  replay-IsReplayed later other db project aoi response hp draft_ ha hs = bind_found _ _ hp (
      bind_pass _ _ _ (ap not draft_) (
        bind_found _ _ (ap (λ o. required_aoi o "Project AOI is required before saving tasks") ha) (
          bind_found _ _ (ap ok hs) (
            end_found _ (rw (==_refl (lib.body_hash (is_grid body.source) body.features)) refl)
              refl))))

  -- The response is stored under the key, for the project.
  abbrev Stored : SaveTasksResponse → Db → Type 0
  Stored response db =
      (j : ℕ) × (j ≡ i)
      × (stored_save j (some key) db
          ≡ some (record {
            project_id = j;
            key = key;
            body_hash = lib.body_hash (is_grid body.source) body.features;
            response = response;
          }))

  stored_save-saves :
      (j : ℕ) (a b : Db)
      → a.saves ≡ b.saves
      → stored_save j (some key) a ≡ stored_save j (some key) b
  unfolding stored_save
  stored_save-saves j a b same = rw same refl

  Stored-IsReplayed :
      (later : Datetime) (other : UserInfo) (response : SaveTasksResponse) (db then_ : Db)
      (project : TaskingProject) (aoi : Wkb)
      → Stored response db
      → then_.saves ≡ db.saves
      → get_project w i then_ ≡ ok project
      → is_draft project.status ≡ true
      → project.aoi ≡ some aoi
      → IsReplayed later other response then_
  Stored-IsReplayed later other response db then_ project aoi (j, named, stored) same hp d ha =
      let own : j ≡ project.id = named ∙ sym (get_project-id w i then_ project hp) in
      (replay-IsReplayed later other then_ project aoi response hp d ha (
        subst
          (λ k.
            stored_save k (some key) then_
            ≡ some (record {
              project_id = k;
              key = key;
              body_hash = lib.body_hash (is_grid body.source) body.features;
              response = response;
            }))
          own (stored_save-saves j then_ db same ∙ stored))).at

  module _ (now later : Datetime) (user other : UserInfo) where
    -- What the first request claims of its end.
    abbrev AnswersAgain : Result (SaveTasksResponse × Bool) × Session Db → Type 0
    AnswersAgain r =
        (response : SaveTasksResponse)
        → r.0 ≡ ok (response, false)
        → IsReplayed later other response r.1.committed × Stored response r.1.committed

    -- The tables that a stored save leaves.
    saved-IsReplayed :
        (db : Db) (project : TaskingProject) (aoi : Wkb) (ts : List TaskingTask)
        (response : SaveTasksResponse)
        → str_eq key "" ≡ false
        → get_project w i db ≡ ok project
        → is_draft project.status ≡ true
        → project.aoi ≡ some aoi
        → stored_save project.id (some key) db ≡ none
        → let after_save : Db =
            store_save project.id
              (some key)
              (lib.body_hash (is_grid body.source) body.features)
              response
              (audit tasks_created project.id none user.user_uuid
                (created_details (length ts) body.source)
                (set_boundary_type project.id body.source now (insert_tasks ts db))) in
          IsReplayed later other response after_save × Stored response after_save
    saved-IsReplayed db project aoi ts response named hp draft_ ha fresh =
        let noted : Db =
          audit tasks_created project.id none user.user_uuid
            (created_details (length ts) body.source)
            (set_boundary_type project.id body.source now (insert_tasks ts db)) in
        let again : get_project w i noted
            ≡ ok (record project { task_boundary_type = some body.source; updated_at = now }) =
          unfold get_project audit in
          set_boundary_type-get_project w i (insert_tasks ts db) project body.source now
            (unfold get_project insert_tasks in hp) in
        let still_fresh : stored_save project.id (some key) noted ≡ none =
          unfold stored_save audit set_boundary_type insert_tasks in fresh in
        let stored = store_save-stored_save project.id key _ response noted named still_fresh in
        (
          (replay-IsReplayed later other _
              (record project { task_boundary_type = some body.source; updated_at = now }) aoi
              response (store_save-get_project w i project.id key _ response noted ∙ again) draft_
              ha stored).at,
          (project.id, get_project-id w i db project hp, stored),
        )

    save-Ends :
        (db : Db)
        → str_eq key "" ≡ false
        → Ends AnswersAgain (save lib now w i user body (some key)) (opened db)
    unfolding save save_new
    save-Ends db named =
        bind_query _ _
          (λ project hp.
            bind_raise_if _ _ _
              (λ not_draft.
                bind_query _ _
                  (λ aoi ha.
                    bind_query _ _ (λ stored hs. rest project aoi stored hp not_draft ha hs)
                      (λ e response h. absurd (cc h)))
                  (λ e response h. absurd (cc h)))
              (λ response h. absurd (cc h)))
          (λ e response h. absurd (cc h))
      where
        rest :
            (project : TaskingProject) (aoi : Wkb) (stored : Option SaveRecord)
            → get_project w i db ≡ ok project
            → not (is_draft project.status) ≡ false
            → required_aoi project.aoi "Project AOI is required before saving tasks" ≡ ok aoi
            → ok (stored_save project.id (some key) db) ≡ ok stored
            → Ends AnswersAgain
                (elim stored [
                  | some row ↦
                      query (λ _. replay (lib.body_hash (is_grid body.source) body.features) row)
                  | none ↦
                      save_new lib now project aoi user body
                        (some key)
                        (lib.body_hash (is_grid body.source) body.features)
                ])
                (opened db)
        rest project aoi (some row) hp d ha hs =
            end_query_with _ (λ r e response h. absurd (replay-not_new _ row response (e ∙ h)))
        rest project aoi none hp d ha hs =
            bind_query _ _
              (λ existing _.
                bind_raise_if _ _ _
                  (λ _.
                    bind_query _ _
                      (λ ts _. bind_execute _ _ (
                        bind_execute _ _ (
                          bind_execute _ _ (
                            bind_query _ _
                              (λ responses _. bind_execute _ _ (
                                bind_commit _ (
                                  end_pure _ (λ response h.
                                    let same : record {
                                      project_id = project.id;
                                      task_boundary_type = body.source;
                                      task_count = length ts;
                                      tasks = responses;
                                      idempotency_key = some key;
                                      replayed = false;
                                    }
                                        ≡ response =
                                      cc h in
                                    rw (sym same) (
                                      saved-IsReplayed db project aoi ts _ named hp (ground arith)
                                        (required_aoi-ok project.aoi aoi ha) (cc hs))))))
                              (λ e response h. absurd (cc h))))))
                      (λ e response h. absurd (cc h)))
                  (λ response h. absurd (cc h)))
              (λ e response h. absurd (cc h))

    -- Saving is idempotent under a key: once a save with a non-empty key has succeeded as a new one,
    -- a request with that key and the same body, by any user and with no limit of time, is answered
    -- with the stored response, marked as replayed, and changes nothing. That holds of the tables
    -- that the save leaves, and of any later ones with the same stored saves in which the project
    -- is still there, in draft and with an area of interest.
    pub save-replays :
        (db then_ : Db) (response : SaveTasksResponse) (project : TaskingProject) (aoi : Wkb)
        → str_eq key "" ≡ false
        → (save lib now w i user body (some key) (opened db)).0 ≡ ok (response, false)
        → then_.saves ≡ (after (save lib now w i user body (some key)) db).saves
        → get_project w i then_ ≡ ok project
        → is_draft project.status ≡ true
        → project.aoi ≡ some aoi
        → IsReplayed later other response (after (save lib now w i user body (some key)) db)
          × IsReplayed later other response then_
    save-replays db then_ response project aoi named h same hp d ha =
        let (replayed, stored) = (save-Ends db named).at response h in
        (replayed, Stored-IsReplayed later other response _ then_ project aoi stored same hp d ha)
