-- ===== src/Tasking/Safety/Saves.antt =====
-- Saving tasks against the invariant: `save` and `validate` of api/src/tasking/tasks/repository.py.
use workspaces_backend.Tasking.Dtos.{SaveTasksResponse}
use workspaces_backend.Tasking.Projects.Queries.{update_project}
use Prim.Native.String.{String}
use text.Mathlib.Text.{◌==◌ as str_eq}
use workspaces_backend.Base.{
  ℕ, ◌≡◌, refl, ◌≤◌, ◌<◌, ◌+◌, List, [], ◌∷◌, length, All, All-map, Distinct, Option, none, some,
  Bool-cases, inl, inr, arith,
}
use workspaces_backend.Core.{
  Keeps, keep_bind, keep_pure, keep_query, keep_raise_if, keep_execute, keep_commit, ok, bind_query,
  bind_execute, Result-cases, query,
}
use workspaces_backend.Security.UserInfo.{UserInfo}
use workspaces_backend.Tasking.Schema.{
  Db, TaskingProject, TaskingTask, Datetime, TaskBoundaryType, to_map, Wkb, SaveRecord,
}
use workspaces_backend.Tasking.Geometry.{Shapely, Shape}
use workspaces_backend.Tasking.Invariant.{Inv, insert_tasks-IsSound, task_key}
use workspaces_backend.Tasking.Tasks.Save.{
  SaveTasksRequest, geometries_of, task_polygon, tasks_from, insert_tasks, set_boundary_type,
  store_save, save_new, save, polygon_area_km_2, aoi_shape, replay, is_grid,
}
use workspaces_backend.Tasking.Safety.Writes.{audit-Inv}
use workspaces_backend.Tasking.Safety.ProjectWrites.{update_project-Inv}

-- What `save` knows of the rows that it inserts.
pub record Numbered (project_id id : ℕ) (ts : List TaskingTask) : Type 0 where
  pub above : All (λ t. id ≤ t.id) ts
  pub below : All (λ t. t.id < id + length ts) ts
  pub distinct : Distinct task_key ts
  pub fresh :
      All (λ t. (t.project_id ≡ project_id) × (t.status ≡ to_map) × (t.last_mapper_id ≡ none)) ts

-- One turn of the loop that has succeeded.
pub record Turn (lib : Shapely) (p now : ℕ) (aoi : Shape) (idx id g : ℕ) (gs : List ℕ)
    (ts : List TaskingTask) : Type 0 where
  pub poly : Shape
  pub rest : List TaskingTask
  pub inside : task_polygon lib aoi g ≡ ok poly
  pub later : tasks_from lib p now aoi (idx + 1) (id + 1) gs ≡ ok rest
  pub whole :
      ts
      ≡ (record {
        id = id;
        project_id = p;
        task_number = idx + 1;
        area_sqkm = lib.round_4 (polygon_area_km_2 lib poly);
        status = to_map;
        last_mapper_id = none;
        geometry = lib.from_shape poly;
        created_at = now;
        updated_at = now;
      })
        ∷ rest

module _ (lib : Shapely) (p now : ℕ) (aoi : Shape) where
  pub tasks_from-Turn :
      (idx id g : ℕ) (gs : List ℕ) (ts : List TaskingTask)
      → tasks_from lib p now aoi idx id (g ∷ gs) ≡ ok ts
      → Turn lib p now aoi idx id g gs ts
  unfolding tasks_from
  tasks_from-Turn idx id g gs ts h = elim (Result-cases (task_polygon lib aoi g)) [
    | inr (e, a) ↦ absurd (cc (rw (a, tasks_from) at h))
    | inl (poly, a) ↦ elim (Result-cases (tasks_from lib p now aoi (idx + 1) (id + 1) gs)) [
      | inr (e, b) ↦ absurd (cc (rw (a, b, tasks_from) at h))
      | inl (rest, b) ↦ record {
        poly = poly;
        rest = rest;
        inside = a;
        later = b;
        whole = cc (rw (a, b, tasks_from) at h);
      }
    ]
  ]

  tasks_from-Numbered :
      (idx id : ℕ) (gs : List ℕ) (ts : List TaskingTask)
      → tasks_from lib p now aoi idx id gs ≡ ok ts
      → Numbered p id ts
  unfolding tasks_from
  tasks_from-Numbered idx id [] ts h =
      let none_made : ts ≡ [] = cc h in
      rw none_made (record { above = tt; below = tt; distinct = tt; fresh = tt })
  tasks_from-Numbered idx id (g ∷ gs) ts h =
      let t = tasks_from-Turn idx id g gs ts h in
      let n = tasks_from-Numbered (idx + 1) (id + 1) gs t.rest t.later in
      rw t.whole (record {
        above = (omega arith, All-map _ _ (λ u k. omega (arith, k)) t.rest n.above);
        below = (omega arith, All-map _ _ (λ u k. omega (arith, k)) t.rest n.below);
        distinct = (All-map _ _ (λ u k e. absurd (omega (arith, k, e))) t.rest n.above, n.distinct);
        fresh = ((refl, refl, refl), n.fresh);
      })

set_boundary_type-Inv :
    (k : ℕ) (b : TaskBoundaryType) (now : ℕ) (db : Db) → Inv db → Inv (set_boundary_type k b now db)
unfolding set_boundary_type update_project
set_boundary_type-Inv k b now db v =
    update_project-Inv k (λ q. record q { task_boundary_type = some b; updated_at = now }) db v
      (λ q. refl) (λ q. refl) (λ q h. h)

store_save-Inv :
    (k : ℕ) (key : Option String) (hash : ℕ) (r : SaveTasksResponse) (db : Db)
    → Inv db
    → Inv (store_save k key hash r db)
unfolding store_save
store_save-Inv k none hash r db v = v
store_save-Inv k (some key) hash r db v = elim (Bool-cases (str_eq key "")) [
  | inl e ↦ rw e v
  | inr e ↦ rw e v
]

insert_tasks-Inv :
    (p : ℕ) (ts : List TaskingTask) (db : Db)
    → Inv db
    → Numbered p db.next_task_id ts
    → Inv (insert_tasks ts db)
unfolding insert_tasks
insert_tasks-Inv p ts db v n =
    insert_tasks-IsSound v ts n.above n.below n.distinct
      (All-map _ _ (λ t f. rw (f.1, f.2) refl) ts n.fresh)

module _ (lib : Shapely) (now : Datetime) (w i : ℕ) (user : UserInfo) where
  save_new-Keeps :
      (project : TaskingProject) (aoi : Wkb) (body : SaveTasksRequest) (key : Option String)
      (hash : ℕ)
      → Keeps Inv (save_new lib now project aoi user body key hash)
  unfolding save_new
  save_new-Keeps project aoi body key hash = keep_bind _ _ (keep_query _) λ _.
      keep_bind _ _ (keep_raise_if _ _) λ _. record {
        keeps = λ s v c.
            bind_query _ _
              (λ created made. bind_execute _ _ (
                (keep_bind _ _ (keep_execute _ (set_boundary_type-Inv project.id body.source now))
                    λ _. keep_bind _ _ (keep_execute _ (audit-Inv _ _ _ _ _)) λ _.
                      keep_bind _ _ (keep_query _) λ responses.
                        keep_bind _ _ (keep_execute _ (store_save-Inv project.id key hash _))
                          λ _. keep_bind _ _ keep_commit λ _. keep_pure _).keeps
                  _
                  (insert_tasks-Inv project.id created s.working v (
                    tasks_from-Numbered lib project.id now (aoi_shape lib aoi) 0
                      s.working.next_task_id (geometries_of body) created made))
                  c))
              (λ e. (v, c));
      }

  pub save-Keeps :
      (body : SaveTasksRequest) (key : Option String) → Keeps Inv (save lib now w i user body key)
  unfolding save
  save-Keeps body key = keep_bind _ _ (keep_query _) λ project.
      keep_bind _ _ (keep_raise_if _ _) λ _.
        keep_bind _ _ (keep_query _)
          λ aoi. keep_bind _ _ (keep_query _) λ stored. found project aoi stored
    where
      found :
          (project : TaskingProject) (aoi : Wkb) (stored : Option SaveRecord)
          → Keeps Inv (elim stored [
            | some row ↦ query (λ _. replay (lib.body_hash (is_grid body.source) body.features) row)
            | none ↦
                save_new lib now project aoi user body key
                  (lib.body_hash (is_grid body.source) body.features)
          ])
      found project aoi (some row) = keep_query _
      found project aoi none = save_new-Keeps project aoi body key _
