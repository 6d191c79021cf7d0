-- ===== src/Workspaces/Properties/Deletion.antt =====
-- Deleting a workspace: `delete_workspace` of api/src/workspaces/routes.py.
use workspaces_backend.Base.{
  ℕ, ◌≡◌, ◌≢◌, refl, sym, ap, ◌∙◌, ◌==◌, Bool, false, List, [], ◌∷◌, filter, any, delete_where,
  arith, none, All, lookup, lookup-erase, Dict, erase, subst,
}
use workspaces_backend.Core.{Ends, Session, bind_query, bind_found, bind_raise_if, ok, bind_execute}
use workspaces_backend.Security.UserInfo.{UserInfo}
use workspaces_backend.Workspaces.Schema.{Workspace, OsmDb, WorkspaceUserRoleItem}
use workspaces_backend.Workspaces.World.{World, begun}
use workspaces_backend.Workspaces.Queries.{delete_workspace_row, is_workspace}
use workspaces_backend.Workspaces.Members.{
  remove_all_member_roles, is_in, get_privileged_workspace_members,
}
use workspaces_backend.Workspaces.Routes.{delete_workspace, evict_all}
use workspaces_backend.Workspaces.Properties.Teams.{filter-delete_apart}
use workspaces_backend.Workspaces.Properties.Preservation.{
  Succeeds, succeed_known, end_commit_osm, end_commit_tasks, bind_evict, succeed_pure, end_weaker,
}

any-delete_where {ℓ} : {A : Type ℓ} (p : A → Bool) (xs : List A) → any p (delete_where p xs) ≡ false
any-delete_where p [] = refl
any-delete_where p (x ∷ xs) = ground (arith, any-delete_where p xs)

-- The cache after a sequence of evictions.
abbrev erase_all : List WorkspaceUserRoleItem → Dict UserInfo → Dict UserInfo
erase_all [] d = d
erase_all (m ∷ ms) d = erase_all ms (erase m.auth_uid d)

lookup-erase_all :
    (k : ℕ) (ms : List WorkspaceUserRoleItem) (d : Dict UserInfo)
    → lookup k d ≡ none
    → lookup k (erase_all ms d) ≡ none
lookup-erase_all k [] d h = h
lookup-erase_all k (m ∷ ms) d h =
    lookup-erase_all k ms (erase m.auth_uid d) (ground (arith, h, lookup-erase m.auth_uid k d))

abbrev pub AllEvicted : List WorkspaceUserRoleItem → Dict UserInfo → Type 0
AllEvicted ms d = All (λ (m : WorkspaceUserRoleItem). lookup m.auth_uid d ≡ none) ms

erase_all-AllEvicted :
    (ms : List WorkspaceUserRoleItem) (d : Dict UserInfo) → AllEvicted ms (erase_all ms d)
erase_all-AllEvicted [] d = tt
erase_all-AllEvicted (m ∷ ms) d = (
  lookup-erase_all m.auth_uid ms (erase m.auth_uid d)
      (ground (arith, lookup-erase m.auth_uid m.auth_uid d)),
  erase_all-AllEvicted ms (erase m.auth_uid d),
)

abbrev CacheOnly : List WorkspaceUserRoleItem → Session World → Session World → Type 0
CacheOnly ms s t =
    t.committed ≡ record s.committed { user_info_cache = erase_all ms s.committed.user_info_cache }

evict_all-CacheOnly :
    (ms : List WorkspaceUserRoleItem) (s : Session World)
    → Ends (Succeeds (λ _ t. CacheOnly ms s t)) (evict_all ms) s
unfolding evict_all
evict_all-CacheOnly [] s = succeed_pure _ _ refl
evict_all-CacheOnly (m ∷ ms) s = bind_evict _ _ (evict_all-CacheOnly ms _)

abbrev pub has_id : ℕ → Workspace → Bool
has_id v x = x.id == v

module _ (user : UserInfo) (id : ℕ) (w : World) where
  -- The workspace is deleted: no row of it that the caller sees, no role on it, and no cached
  -- permissions of those who had one; the rows of every other workspace and the roles on it are as
  -- before.
  pub record IsGone (s : Session World) : Type 0 where
    pub no_row : any (is_workspace user id) s.committed.tasks.workspaces ≡ false
    pub no_role : any (is_in id) s.committed.osm.user_workspace_roles ≡ false
    pub evicted : AllEvicted (get_privileged_workspace_members id w.osm) s.committed.user_info_cache
    pub others :
        (v : ℕ)
        → v ≢ id
        → filter (is_in v) s.committed.osm.user_workspace_roles
          ≡ filter (is_in v) w.osm.user_workspace_roles
    pub other_rows :
        (v : ℕ)
        → v ≢ id
        → filter (has_id v) s.committed.tasks.workspaces ≡ filter (has_id v) w.tasks.workspaces

  abbrev LeftRows : Session World → Type 0
  LeftRows t = t.committed.tasks.workspaces ≡ delete_where (is_workspace user id) w.tasks.workspaces

  abbrev RowGone : Session World → Type 0
  RowGone t = LeftRows t × (t.working.osm ≡ w.osm)

  delete_row-RowGone : Ends (Succeeds (λ _ t. RowGone t)) (delete_workspace_row user id) (begun w)
  unfolding delete_workspace_row
  delete_row-RowGone =
      bind_query _ _
        (λ count _.
          bind_query _ _
            (λ referenced _.
              bind_raise_if _ _ _
                (λ _. bind_execute _ _ (
                  bind_raise_if _ _ _ (λ _. end_commit_tasks (λ a h. (refl, refl)))
                    (λ a h. absurd (cc h))))
                (λ a h. absurd (cc h)))
            (λ e a h. absurd (cc h)))
        (λ e a h. absurd (cc h))

  abbrev RolesGone : Session World → Type 0
  RolesGone t =
      LeftRows t
      × (t.committed.osm.user_workspace_roles ≡ delete_where (is_in id) w.osm.user_workspace_roles)

  remove_all-RolesGone :
      (s : Session World)
      → RowGone s
      → Ends (Succeeds (λ _ t. RolesGone t)) (remove_all_member_roles id) s
  unfolding remove_all_member_roles
  remove_all-RolesGone s gone = bind_execute _ _ (
      end_commit_osm (λ a h.
        (gone.0, ap (λ (db : OsmDb). delete_where (is_in id) db.user_workspace_roles) gone.1)))

  leave_IsGone :
      (s t : Session World)
      → RolesGone s
      → CacheOnly (get_privileged_workspace_members id w.osm) s t
      → IsGone t
  leave_IsGone s t gone same =
      let ms = get_privileged_workspace_members id w.osm in
      let roles : t.committed.osm.user_workspace_roles
          ≡ delete_where (is_in id) w.osm.user_workspace_roles =
        ap (λ (v : World). v.osm.user_workspace_roles) same ∙ gone.1 in
      let rows : LeftRows t = ap (λ (v : World). v.tasks.workspaces) same ∙ gone.0 in
      record {
        no_row =
            ap (any (is_workspace user id)) rows
            ∙ any-delete_where (is_workspace user id) w.tasks.workspaces;
        no_role =
            ap (any (is_in id)) roles ∙ any-delete_where (is_in id) w.osm.user_workspace_roles;
        evicted =
            subst (AllEvicted ms) (sym (ap (λ (v : World). v.user_info_cache) same))
              (erase_all-AllEvicted ms s.committed.user_info_cache);
        others = λ v ne.
            ap (filter (is_in v)) roles
            ∙ filter-delete_apart (is_in v) (is_in id) (λ x e. ground (arith, e, ne))
                w.osm.user_workspace_roles;
        other_rows = λ v ne.
            ap (filter (has_id v)) rows
            ∙ filter-delete_apart (has_id v) (is_workspace user id) (λ x e. ground (arith, e, ne))
                w.tasks.workspaces;
      }

  delete_workspace-Ends : Ends (Succeeds (λ _ t. IsGone t)) (delete_workspace user id) (begun w)
  unfolding delete_workspace
  delete_workspace-Ends =
      bind_raise_if _ _ _
        (λ _. bind_found _ _ refl (
          succeed_known _ _ _ delete_row-RowGone (λ _ s gone.
            succeed_known _ _ _ (remove_all-RolesGone s gone) (λ _ t none_left.
              end_weaker (evict_all _) (evict_all-CacheOnly _ t)
                (λ a u same. leave_IsGone t u none_left same)))))
        (λ a h. absurd (cc h))

  -- Where deleting a workspace succeeds, the committed tables have no row of it that the caller sees
  -- and no role on it, none of those who had a role on it has cached permissions, and the rows of
  -- every other workspace and the roles on it are as before.
  pub delete_workspace-IsGone :
      (delete_workspace user id (begun w)).0 ≡ ok tt → IsGone (delete_workspace user id (begun w)).1
  delete_workspace-IsGone = delete_workspace-Ends.at tt
