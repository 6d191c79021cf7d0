-- ===== src/Workspaces/Properties/Creation.antt =====
-- A new workspace and the role of its creator: `create_workspace` of api/src/workspaces/routes.py.
use workspaces_backend.Base.{
  ℕ, ◌≡◌, refl, ◌∙◌, Bool, true, false, ◌&&◌, ◌==◌, List, [], ◌∷◌, ◌++◌, any, update_where,
  Bool-cases, inl, inr, arith, Option, none, some, lookup, lookup-erase, ==_refl, Dict, erase,
}
use Prim.Native.String.{String}
use workspaces_backend.Core.{
  Keeps, Ends, Result, Session, keep_bind, keep_pure, keep_query, keep_execute, keep_raise_if,
  bind_query, bind_raise_if, bind_known, ok, bind_execute,
}
use workspaces_backend.Security.UserInfo.{UserInfo}
use workspaces_backend.Tasking.Schema.{Datetime, lead, is_lead}
use workspaces_backend.Workspaces.Schema.{
  TaskDb, OsmDb, Workspace, WorkspaceCreate, JobRequest, WorkspaceUserRole,
}
use workspaces_backend.Workspaces.World.{World, begun}
use workspaces_backend.Workspaces.Queries.{
  create_workspace_row, insert_workspace, has_id, new_workspace,
}
use workspaces_backend.Workspaces.Members.{assign_role, upsert_role_row, is_role}
use workspaces_backend.Workspaces.Jobs.{create_job, update_job}
use workspaces_backend.Workspaces.Routes.{create_workspace, import_job}
use workspaces_backend.Workspaces.Properties.Preservation.{
  Split, keep_commit_osm, Succeeds, succeed_rolling_back, succeed_pure, succeed_known,
  end_commit_osm, bind_commit_tasks, bind_evict,
}

abbrev pub is_founded : UserInfo → ℕ → Workspace → Bool
is_founded user id w = w.id == id && w.created_by == user.user_uuid

abbrev pub is_leading : UserInfo → ℕ → WorkspaceUserRole → Bool
is_leading user id r = is_role id user.user_uuid r && is_lead r.role

abbrev pub HasRow : UserInfo → ℕ → TaskDb → Type 0
HasRow user id db = any (is_founded user id) db.workspaces ≡ true

abbrev pub HasLeadRole : UserInfo → ℕ → OsmDb → Type 0
HasLeadRole user id db = any (is_leading user id) db.user_workspace_roles ≡ true

module _ {A : Type 0} (p : A → Bool) where
  any-append_self : (xs : List A) (x : A) → p x ≡ true → any p (xs ++ x ∷ []) ≡ true
  any-append_self [] x h = rw h refl
  any-append_self (y ∷ xs) x h = ground (arith, any-append_self xs x h)

  any-update_self :
      (q : A → Bool) (f : A → A)
      → ((x : A) → q x ≡ true → p (f x) ≡ true)
      → (xs : List A) → any q xs ≡ true
      → any p (update_where q f xs) ≡ true
  any-update_self q f h [] e = absurd (cc e)
  any-update_self q f h (x ∷ xs) e = ground (arith, e, h x, any-update_self q f h xs)

upsert_role_row-leads :
    (user : UserInfo) (id : ℕ) (rows : List WorkspaceUserRole)
    → any (is_leading user id) (upsert_role_row id user.user_uuid lead rows) ≡ true
unfolding upsert_role_row
upsert_role_row-leads user id rows =
    let self : is_leading user id
          (record { user_auth_uid = user.user_uuid; workspace_id = id; role = lead })
        ≡ true =
      ground arith in
    elim (Bool-cases (any (is_role id user.user_uuid) rows)) [
      | inl old ↦ rw old (
          any-update_self (is_leading user id) (is_role id user.user_uuid) _
            (λ r e. ground (arith, e)) rows old)
      | inr new ↦ rw new (any-append_self (is_leading user id) rows _ self)
    ]

abbrev Inserted : UserInfo → Workspace → Session World → Type 0
Inserted user row s = HasRow user row.id s.working.tasks × HasRow user row.id s.committed.tasks

module _ (now : Datetime) (user : UserInfo) (d : WorkspaceCreate) where
  insert-HasRow :
      (id : ℕ) (s : Session World)
      → Ends
          (Succeeds (λ _ t. HasRow user id t.working.tasks))
          (insert_workspace (new_workspace now user d id))
          s
  unfolding insert_workspace
  insert-HasRow id s = elim (Bool-cases (any (has_id id) s.working.tasks.workspaces)) [
    | inl taken ↦ record { at = rw taken (λ a e. absurd (cc e)) }
    | inr free ↦ record {
      at =
          rw free (λ a e.
            any-append_self (is_founded user id) s.working.tasks.workspaces _ (ground arith));
    }
  ]

  create_row-Inserted :
      (s : Session World) → Ends (Succeeds (Inserted user)) (create_workspace_row now user d) s
  unfolding create_workspace_row
  create_row-Inserted s =
      bind_raise_if _ _ _
        (λ _. succeed_rolling_back _ _ _ (
          bind_query _ _
            (λ id e.
              succeed_known _ _ _ (insert-HasRow id s)
                (λ _ t row. bind_commit_tasks _ (succeed_pure _ _ (row, row))))
            (λ e a h. absurd (cc h))))
        (λ a h. absurd (cc h))

abbrev pub Founded : UserInfo → ℕ → World → Type 0
Founded user id = Split (HasRow user id) (HasLeadRole user id)

assign_role-Founded :
    (user : UserInfo) (id : ℕ) (s : Session World)
    → HasRow user id s.working.tasks × HasRow user id s.committed.tasks
    → Ends
        (Succeeds (λ _ t. Founded user id t.working × Founded user id t.committed))
        (assign_role id user.user_uuid lead)
        s
unfolding assign_role
assign_role-Founded user id s rows =
    let leads = upsert_role_row-leads user id s.working.osm.user_workspace_roles in
    bind_query _ _
      (λ known e.
        bind_raise_if _ _ _
          (λ _. bind_execute _ _ (end_commit_osm (λ a h. ((rows.0, leads), (rows.1, leads)))))
          (λ a h. absurd (cc h)))
      (λ e a h. absurd (cc h))

module _ (user : UserInfo) (id : ℕ) where
  keep_create_job :
      (kind status : String) (request : JobRequest) (workspace_id : ℕ)
      → Keeps (Founded user id) (create_job kind status request workspace_id)
  unfolding create_job
  keep_create_job kind status request workspace_id = keep_bind _ _ (keep_query _) (λ job_id.
      keep_bind _ _ (keep_execute _ (λ w v. v)) (λ _.
        keep_bind _ _ (keep_commit_osm (HasRow user id) (HasLeadRole user id))
          (λ _. keep_pure job_id)))

  keep_update_job :
      (job_id : ℕ) (request : JobRequest) (ignoring : Bool)
      → Keeps (Founded user id) (update_job user job_id request ignoring)
  unfolding update_job
  keep_update_job job_id request ignoring = keep_bind _ _ (keep_query _) (λ count.
      keep_bind _ _ (keep_execute _ (λ w v. v)) (λ _. keep_bind _ _ (keep_raise_if _ _) (λ _.
        keep_bind _ _ (keep_commit_osm (HasRow user id) (HasLeadRole user id))
          (λ _. keep_query _))))

  keep_import_job :
      (sent : Result (Unit {0})) (imports : Bool) (d : WorkspaceCreate)
      → Keeps (Founded user id) (import_job sent imports user id d)
  unfolding import_job
  keep_import_job sent true d = keep_bind _ _ (keep_create_job _ _ _ _) (λ job_id.
      keep_bind _ _ (keep_update_job _ _ _)
        (λ _. keep_bind _ _ (keep_query _) (λ _. keep_pure (some job_id))))
  keep_import_job sent false d = keep_pure none

-- What the creator finds: the workspace is there, with the creator as LEAD, and no old permissions
-- of the creator are in the cache.
abbrev pub IsCreated : UserInfo → ℕ × Option ℕ → Session World → Type 0
IsCreated user a s =
    Founded user a.0 s.committed × (lookup user.user_uuid s.committed.user_info_cache ≡ none)

pub lookup-erase_self : (k : ℕ) (d : Dict UserInfo) → lookup k (erase k d) ≡ none
lookup-erase_self k d = lookup-erase k k d ∙ rw (==_refl k) refl

create_workspace-Ends :
    (saved sent : Result (Unit {0})) (now : Datetime) (user : UserInfo) (d : WorkspaceCreate)
    (w : World)
    → Ends (Succeeds (IsCreated user)) (create_workspace saved sent now user d) (begun w)
unfolding create_workspace
create_workspace-Ends saved sent now user d w =
    succeed_known _ _ _ (create_row-Inserted now user d (begun w)) (λ row s rows.
      succeed_known _ _ _ (assign_role-Founded user row.id s rows) (λ _ t both.
        bind_query _ _
          (λ _ _.
            bind_known _ _ ((keep_import_job user row.id sent _ d).keeps t both.0 both.1)
              (λ job_id u kept.
                bind_evict _ _ (succeed_pure _ _ (kept.1, lookup-erase_self user.user_uuid _)))
              (λ e u kept a h. absurd (cc h)))
          (λ e a h. absurd (cc h))))

-- The creator leads: where creating a workspace succeeds, from a JSON body or from a form with a
-- file, and whatever the file system and the message bus do, the committed tables hold the workspace
-- as the creator's and a LEAD role of the creator on it, and the creator's permissions are not
-- cached.
pub create_workspace-IsCreated :
    (saved sent : Result (Unit {0})) (now : Datetime) (user : UserInfo) (d : WorkspaceCreate)
    (w : World) (a : ℕ × Option ℕ)
    → (create_workspace saved sent now user d (begun w)).0 ≡ ok a
    → IsCreated user a (create_workspace saved sent now user d (begun w)).1
create_workspace-IsCreated saved sent now user d w =
    (create_workspace-Ends saved sent now user d w).at
