-- ===== src/Workspaces/Properties/Roles.antt =====
-- Workspace roles: `assign_member_role` and `remove_member_role` of api/src/users/routes.py.
use workspaces_backend.Base.{
  ℕ, suc, ◌≡◌, ◌≢◌, ◌≤◌, refl, ap, ◌∙◌, Bool, true, false, ◌&&◌, ◌==◌, List, [], ◌∷◌, ◌++◌, filter,
  any, update_where, delete_where, Bool-cases, inl, inr, arith, none, length, lookup,
}
use workspaces_backend.Core.{Ends, Session, bind_query, bind_execute, bind_raise_if, ok}
use workspaces_backend.Security.UserInfo.{UserInfo}
use workspaces_backend.Tasking.Schema.{Uuid, RoleType, contributor, lead, validator}
use workspaces_backend.Workspaces.Schema.{WorkspaceUserRole}
use workspaces_backend.Workspaces.World.{World, begun}
use workspaces_backend.Workspaces.Members.{
  is_role, assign_role, remove_role_row, upsert_role_row, privileged_roles_only,
}
use workspaces_backend.Workspaces.MemberRoutes.{assign_member_role, remove_member_role}
use workspaces_backend.Workspaces.Properties.Teams.{
  filter-update_apart, filter-delete_apart, filter-append_false,
}
use workspaces_backend.Workspaces.Properties.Creation.{lookup-erase_self}
use workspaces_backend.Workspaces.Properties.Preservation.{
  Succeeds, succeed_known, end_commit_osm, end_evict,
}

filter-delete_self : {A : Type 0} (p : A → Bool) (xs : List A) → filter p (delete_where p xs) ≡ []
filter-delete_self p [] = refl
filter-delete_self p (x ∷ xs) = ground (arith, filter-delete_self p xs)

module _ (id : ℕ) (uid : Uuid) (role : RoleType) where
  abbrev pub given : WorkspaceUserRole
  given = record { user_auth_uid = uid; workspace_id = id; role = role }

  filter-append_given :
      (rows : List WorkspaceUserRole)
      → any (is_role id uid) rows ≡ false
      → filter (is_role id uid) (rows ++ given ∷ []) ≡ given ∷ []
  filter-append_given [] h = ground arith
  filter-append_given (r ∷ rows) h = elim (Bool-cases (is_role id uid r)) [
    | inl e ↦ absurd (cc (rw e at h))
    | inr e ↦ rw e (filter-append_given rows (rw e at h))
  ]

  filter_none :
      (rows : List WorkspaceUserRole)
      → length (filter (is_role id uid) rows) ≤ 0
      → filter (is_role id uid) rows ≡ []
  filter_none rows h = go (filter (is_role id uid) rows) h
    where
      go : (xs : List WorkspaceUserRole) → length xs ≤ 0 → xs ≡ []
      go [] h = refl
      go (x ∷ xs) h = absurd (omega arith)

  abbrev with_role : WorkspaceUserRole → WorkspaceUserRole
  with_role r = record r { role = role }

  with_role-given : (r : WorkspaceUserRole) → is_role id uid r ≡ true → with_role r ≡ given
  with_role-given r h = ground (arith, h)

  filter-update_nil :
      (rows : List WorkspaceUserRole)
      → filter (is_role id uid) rows ≡ []
      → filter (is_role id uid) (update_where (is_role id uid) with_role rows) ≡ []
  filter-update_nil [] h = refl
  filter-update_nil (r ∷ rows) h = elim (Bool-cases (is_role id uid r)) [
    | inl e ↦ absurd (cc (rw e at h))
    | inr e ↦ rw (e, e) (filter-update_nil rows (rw e at h))
  ]

  filter-update_given :
      (rows : List WorkspaceUserRole)
      → any (is_role id uid) rows ≡ true
      → length (filter (is_role id uid) rows) ≤ 1
      → filter (is_role id uid) (update_where (is_role id uid) with_role rows) ≡ given ∷ []
  filter-update_given [] found unique = absurd (cc found)
  filter-update_given (r ∷ rows) found unique = elim (Bool-cases (is_role id uid r)) [
    | inl e ↦
        let one : suc (length (filter (is_role id uid) rows)) ≤ 1 = (rw e at unique) in
        let none_left = filter-update_nil rows (filter_none rows (omega (arith, one))) in
        rw (e, e)
          (ap (λ x. x ∷ filter (is_role id uid) (update_where (is_role id uid) with_role rows))
              (with_role-given r e)
            ∙ ap (λ xs. given ∷ xs) none_left)
    | inr e ↦ rw (e, e) (filter-update_given rows (rw e at found) (rw e at unique))
  ]

  upsert_role_row-given :
      (rows : List WorkspaceUserRole)
      → length (filter (is_role id uid) rows) ≤ 1
      → filter (is_role id uid) (upsert_role_row id uid role rows) ≡ given ∷ []
  unfolding upsert_role_row
  upsert_role_row-given rows unique = elim (Bool-cases (any (is_role id uid) rows)) [
    | inl old ↦ rw old (filter-update_given rows old unique)
    | inr new ↦ rw new (filter-append_given rows new)
  ]

  upsert_role_row-others :
      (v : ℕ) (u : Uuid) (rows : List WorkspaceUserRole)
      → ((v == id && u == uid) ≡ false)
      → filter (is_role v u) (upsert_role_row id uid role rows) ≡ filter (is_role v u) rows
  unfolding upsert_role_row
  upsert_role_row-others v u rows ne = elim (Bool-cases (any (is_role id uid) rows)) [
    | inl old ↦ rw old (
        filter-update_apart (is_role v u) (is_role id uid) with_role
          (λ x e. (ground (arith, e, ne), ground (arith, e, ne))) rows)
    | inr new ↦ rw new (filter-append_false (is_role v u) rows given (ground (arith, ne)))
  ]

-- The roles of a user on a workspace after a change, with every other pair's as before, and none of
-- the user's permissions in the cache.
pub record IsChanged (id : ℕ) (uid : Uuid) (w : World) (now_has : List WorkspaceUserRole)
    (s : Session World) : Type 0 where
  pub role_rows : filter (is_role id uid) s.committed.osm.user_workspace_roles ≡ now_has
  pub others :
      (v : ℕ) (u : Uuid)
      → (v == id && u == uid) ≡ false
      → filter (is_role v u) s.committed.osm.user_workspace_roles
        ≡ filter (is_role v u) w.osm.user_workspace_roles
  pub uncached : lookup uid s.committed.user_info_cache ≡ none

privileged : (role r : RoleType) → privileged_roles_only role ≡ ok r → role ≢ contributor
unfolding privileged_roles_only
privileged contributor r h = absurd (cc h)
privileged lead r h = cc
privileged validator r h = cc

module _ (id : ℕ) (uid : Uuid) where
  assign_role-upsert :
      (role : RoleType) (s : Session World)
      → Ends
          (Succeeds (λ _ t.
            t.committed.osm.user_workspace_roles
            ≡ upsert_role_row id uid role s.working.osm.user_workspace_roles))
          (assign_role id uid role)
          s
  unfolding assign_role
  assign_role-upsert role s =
      bind_query _ _
        (λ known _.
          bind_raise_if _ _ _ (λ _. bind_execute _ _ (end_commit_osm (λ a h. refl)))
            (λ a h. absurd (cc h)))
        (λ e a h. absurd (cc h))

  remove_role_row-delete :
      (s : Session World)
      → Ends
          (Succeeds (λ _ t.
            t.committed.osm.user_workspace_roles
            ≡ delete_where (is_role id uid) s.working.osm.user_workspace_roles))
          (remove_role_row id uid)
          s
  unfolding remove_role_row
  remove_role_row-delete s =
      bind_query _ _
        (λ count _.
          bind_execute _ _
            (bind_raise_if _ _ _ (λ _. end_commit_osm (λ a h. refl)) (λ a h. absurd (cc h))))
        (λ e a h. absurd (cc h))

module _ (user : UserInfo) (id : ℕ) (uid : Uuid) (w : World) where
  assign_member_role-Ends :
      (role : RoleType)
      → length (filter (is_role id uid) w.osm.user_workspace_roles) ≤ 1
      → Ends
          (Succeeds (λ _ t. (role ≢ contributor) × IsChanged id uid w (given id uid role ∷ []) t))
          (assign_member_role user id uid role)
          (begun w)
  unfolding assign_member_role
  assign_member_role-Ends role unique =
      bind_query _ _
        (λ r chosen.
          bind_raise_if _ _ _
            (λ _.
              bind_query _ _
                (λ _ _. succeed_known _ _ _ (assign_role-upsert id uid role (begun w)) (λ _ t same.
                  end_evict uid (λ a h. (
                    privileged role r chosen,
                    record {
                      role_rows =
                          ap (filter (is_role id uid)) same
                          ∙ upsert_role_row-given id uid role w.osm.user_workspace_roles unique;
                      others = λ v u ne.
                          ap (filter (is_role v u)) same
                          ∙ upsert_role_row-others id uid role v u w.osm.user_workspace_roles ne;
                      uncached = lookup-erase_self uid t.committed.user_info_cache;
                    },
                  ))))
                (λ e a h. absurd (cc h)))
            (λ a h. absurd (cc h)))
        (λ e a h. absurd (cc h))

  remove_member_role-Ends :
      Ends (Succeeds (λ _ t. IsChanged id uid w [] t)) (remove_member_role user id uid) (begun w)
  unfolding remove_member_role
  remove_member_role-Ends =
      bind_raise_if _ _ _
        (λ _.
          bind_query _ _
            (λ _ _. succeed_known _ _ _ (remove_role_row-delete id uid (begun w)) (λ _ t same.
              end_evict uid (λ a h. record {
                role_rows =
                    ap (filter (is_role id uid)) same
                    ∙ filter-delete_self (is_role id uid) w.osm.user_workspace_roles;
                others = λ v u ne.
                    ap (filter (is_role v u)) same
                    ∙ filter-delete_apart (is_role v u) (is_role id uid)
                        (λ x e. ground (arith, e, ne)) w.osm.user_workspace_roles;
                uncached = lookup-erase_self uid t.committed.user_info_cache;
              })))
            (λ e a h. absurd (cc h)))
        (λ a h. absurd (cc h))

  -- A role that is assigned takes effect at once: where it succeeds, the role is LEAD or validator,
  -- the user has exactly this role on the workspace if there was at most one row before, the rows
  -- of every other user and workspace are as before, and no older permissions of the user are in
  -- the cache.
  pub assign_member_role-IsChanged :
      (role : RoleType)
      → length (filter (is_role id uid) w.osm.user_workspace_roles) ≤ 1
      → (assign_member_role user id uid role (begun w)).0 ≡ ok tt
      → (role ≢ contributor)
        × IsChanged id uid w
            (given id uid role ∷ [])
            (assign_member_role user id uid role (begun w)).1
  assign_member_role-IsChanged role unique = (assign_member_role-Ends role unique).at tt

  -- So does a role that is removed: where it succeeds, the user has no role on the workspace, all
  -- other rows are as before, and no older permissions of the user are in the cache.
  pub remove_member_role-IsChanged :
      (remove_member_role user id uid (begun w)).0 ≡ ok tt
      → IsChanged id uid w [] (remove_member_role user id uid (begun w)).1
  remove_member_role-IsChanged = remove_member_role-Ends.at tt
