-- ===== src/Security/Tokens/Derivation.antt =====
-- The permissions that `_validate_token_uncached` of api/core/security.py derives, and the rows that
-- they come from.
use workspaces_backend.Base.{
  ℕ, ◌≡◌, refl, sym, ap, ◌∙◌, Bool, true, ◌&&◌, ◌||◌, ◌==◌, Option, none, some, Dict, lookup,
  insert, lookup-insert, append_at, get_or, List, [], ◌∷◌, ◌++◌, any, filter, arith, Bool-cases,
  inl, inr,
}
use workspaces_backend.Security.UserInfo.{
  UserInfoPgMembership, contains, is_workspace_contributor, is_workspace_lead, leads_a_group,
  is_point_of_contact,
}
use workspaces_backend.Tasking.Schema.{Uuid, RoleType, is_lead}
use workspaces_backend.Workspaces.Schema.{Workspace, WorkspaceUserRole}
use workspaces_backend.Security.Tokens.State.{Auth}
use workspaces_backend.Security.Tokens.Permissions.{
  Payload, grouped, roles_by_workspace, group_ids, is_in_groups, is_role_of_user, user_info,
}

any_append {ℓ} :
    {A : Type ℓ} (q : A → Bool) (xs : List A) (x : A) → any q (xs ++ x ∷ []) ≡ (q x || any q xs)
any_append q [] x = ground arith
any_append q (y ∷ xs) x = ground (arith, any_append q xs x)

module _ (w : ℕ) where
  abbrev in_entry : ℕ × List ℕ → Bool
  in_entry (_, ids) = contains w ids

  any-insert :
      (k v : ℕ) (o : Option (List ℕ)) (d : Dict (List ℕ))
      → lookup k d ≡ o
      → any in_entry (insert k (get_or o ++ v ∷ []) d) ≡ (v == w || any in_entry d)
  any-insert k v none [] e = ground arith
  any-insert k v (some ids) [] e = absurd (cc e)
  any-insert k v o ((j, ids) ∷ d) e = elim (Bool-cases (j == k)) [
    | inl here ↦
        let same : some ids ≡ o = rw here at e in
        let held : get_or o ≡ ids = sym (ap get_or same) in
        rw (here, held, any_append (λ x. x == w) ids v) (ground arith)
    | inr on ↦
        let rest : lookup k d ≡ o = rw on at e in rw (on, any-insert k v o d rest) (ground arith)
  ]

  any-append_at :
      (k v : ℕ) (d : Dict (List ℕ)) → any in_entry (append_at k v d) ≡ (v == w || any in_entry d)
  any-append_at k v d = any-insert k v (lookup k d) d refl

  any-grouped :
      (ws : List Workspace) (d : Dict (List ℕ))
      → any in_entry (grouped ws d) ≡ (any (λ x. x.id == w) ws || any in_entry d)
  unfolding grouped
  any-grouped [] d = refl
  any-grouped (x ∷ ws) d =
      any-grouped ws (append_at x.tdei_project_group_id x.id d)
      ∙ rw (any-append_at x.tdei_project_group_id x.id d) (ground arith)

any-filter {ℓ} :
    {A : Type ℓ} (p q : A → Bool) (xs : List A) → any q (filter p xs) ≡ any (λ x. p x && q x) xs
any-filter p q [] = refl
any-filter p q (x ∷ xs) = ground (arith, any-filter p q xs)

-- What a key holds after its rows were appended.
get-append_at {ℓ} :
    {V : Type ℓ} (k j : ℕ) (v : V) (d : Dict (List V)) (q : V → Bool)
    → any q (get_or (lookup j (append_at k v d))) ≡ ((k == j && q v) || any q (get_or (lookup j d)))
get-append_at k j v d q = elim (Bool-cases (k == j)) [
  | inl here ↦
      let key : k ≡ j = ground arith in
      rw
        (
          lookup-insert k j (get_or (lookup k d) ++ v ∷ []) d,
          here,
          any_append q (get_or (lookup k d)) v,
          key,
        )
        refl
  | inr apart ↦ rw (lookup-insert k j (get_or (lookup k d) ++ v ∷ []) d, apart) refl
]

get-grouped :
    (j w : ℕ) (ws : List Workspace) (d : Dict (List ℕ))
    → contains w (get_or (lookup j (grouped ws d))) ≡ (
        any (λ x. x.tdei_project_group_id == j && x.id == w) ws || contains w (get_or (lookup j d)))
unfolding grouped
get-grouped j w [] d = refl
get-grouped j w (x ∷ ws) d =
    get-grouped j w ws (append_at x.tdei_project_group_id x.id d)
    ∙ rw (get-append_at x.tdei_project_group_id j x.id d (λ v. v == w)) (ground arith)

get-roles :
    (w : ℕ) (rs : List WorkspaceUserRole) (d : Dict (List RoleType))
    → any is_lead (get_or (lookup w (roles_by_workspace rs d)))
      ≡ (any (λ r. r.workspace_id == w && is_lead r.role) rs || any is_lead (get_or (lookup w d)))
unfolding roles_by_workspace
get-roles w [] d = refl
get-roles w (r ∷ rs) d =
    get-roles w rs (append_at r.workspace_id r.role d)
    ∙ rw (get-append_at r.workspace_id w r.role d is_lead) (ground arith)

-- A workspace of one of the caller's groups is found under that group, whichever others are looked at.
any-in_groups :
    (gs : List UserInfoPgMembership) (j w : ℕ) (ws : List Workspace)
    → contains j (group_ids gs) ≡ true
    → any (λ x. is_in_groups gs x && (x.tdei_project_group_id == j && x.id == w)) ws
      ≡ any (λ x. x.tdei_project_group_id == j && x.id == w) ws
any-in_groups gs j w [] h = refl
any-in_groups gs j w (x ∷ ws) h = elim (Bool-cases (x.tdei_project_group_id == j)) [
  | inl here ↦
      let key : x.tdei_project_group_id ≡ j = ground arith in
      let known : is_in_groups gs x ≡ true = rw key h in rw (known, any-in_groups gs j w ws h) refl
  | inr apart ↦ rw apart (ground (arith, any-in_groups gs j w ws h))
]

-- A group makes its point of contact lead what belongs to it.
abbrev pub leads_through : List Workspace → ℕ → UserInfoPgMembership → Bool
leads_through ws w pg =
    any is_point_of_contact pg.tdei_roles
    && any (λ x. x.tdei_project_group_id == pg.project_group_id && x.id == w) ws

module _ (gs : List UserInfoPgMembership) (w : ℕ) (ws : List Workspace) where
  abbrev accessible : Dict (List ℕ)
  accessible = grouped (filter (is_in_groups gs) ws) []

  contains-accessible :
      (j : ℕ)
      → contains j (group_ids gs) ≡ true
      → contains w (get_or (lookup j accessible))
        ≡ any (λ x. x.tdei_project_group_id == j && x.id == w) ws
  contains-accessible j h =
      get-grouped j w (filter (is_in_groups gs) ws) []
      ∙ rw
          (
            any-filter (is_in_groups gs) (λ x. x.tdei_project_group_id == j && x.id == w) ws,
            any-in_groups gs j w ws h,
          )
          (ground arith)

  leads_a_group-accessible :
      (pgs : List UserInfoPgMembership)
      → ((j : ℕ) → contains j (group_ids pgs) ≡ true → contains j (group_ids gs) ≡ true)
      → leads_a_group w accessible pgs ≡ any (leads_through ws w) pgs
  unfolding leads_a_group
  leads_a_group-accessible [] h = refl
  leads_a_group-accessible (pg ∷ pgs) h =
      let here : contains w (get_or (lookup pg.project_group_id accessible))
          ≡ any (λ x. x.tdei_project_group_id == pg.project_group_id && x.id == w) ws =
        contains-accessible pg.project_group_id (h pg.project_group_id (ground arith)) in
      rw (here, leads_a_group-accessible pgs (λ j e. h j (ground arith))) refl

-- A caller's lead role on a workspace.
abbrev pub is_lead_row : Uuid → ℕ → WorkspaceUserRole → Bool
is_lead_row u w r = r.user_auth_uid == u && (r.workspace_id == w && is_lead r.role)

module _ (u : Uuid) (token : ℕ) (p : Payload) (gs : List UserInfoPgMembership) (a : Auth)
    (w : ℕ) where
  pub user_info-contributor :
      is_workspace_contributor (user_info u token p gs a) w
      ≡ any (λ x. is_in_groups gs x && x.id == w) a.workspaces
  unfolding is_workspace_contributor user_info
  user_info-contributor =
      any-grouped w (filter (is_in_groups gs) a.workspaces) []
      ∙ rw (any-filter (is_in_groups gs) (λ x. x.id == w) a.workspaces) (ground arith)

  pub user_info-lead :
      is_workspace_lead (user_info u token p gs a) w
      ≡ (any (is_lead_row u w) a.osm.user_workspace_roles || any (leads_through a.workspaces w) gs)
  unfolding is_workspace_lead user_info
  user_info-lead =
      let roles : any is_lead (
            get_or (
              lookup w
                (roles_by_workspace (filter (is_role_of_user u) a.osm.user_workspace_roles) [])))
          ≡ any (is_lead_row u w) a.osm.user_workspace_roles =
        get-roles w (filter (is_role_of_user u) a.osm.user_workspace_roles) []
        ∙ rw
            (any-filter (is_role_of_user u) (λ r. r.workspace_id == w && is_lead r.role)
              a.osm.user_workspace_roles)
            (ground arith) in
      rw (roles, leads_a_group-accessible gs w a.workspaces gs (λ j e. e)) refl

  -- The permissions that are derived are the ones that the rows give: the caller may contribute to a
  -- workspace exactly where it belongs to one of the caller's project groups, and leads it exactly
  -- where a LEAD row names the caller and the workspace, or where the caller is the point of contact
  -- of a group that the workspace belongs to.
  pub user_info-permissions :
      (is_workspace_contributor (user_info u token p gs a) w
        ≡ any (λ x. is_in_groups gs x && x.id == w) a.workspaces)
      × (is_workspace_lead (user_info u token p gs a) w ≡ (
          any (is_lead_row u w) a.osm.user_workspace_roles
          || any (leads_through a.workspaces w) gs))
  user_info-permissions = (user_info-contributor, user_info-lead)
