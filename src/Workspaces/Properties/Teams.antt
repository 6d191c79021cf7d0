-- ===== src/Workspaces/Properties/Teams.antt =====
-- Teams of different workspaces: the endpoints of api/src/teams/routes.py that write.
use Prim.Native.String.{String}
use workspaces_backend.Base.{
  ℕ, ◌+◌, ◌<◌, ◌≡◌, ◌≢◌, refl, sym, ap, ◌∙◌, Bool, true, false, ◌&&◌, ◌||◌, ◌==◌, List, [], ◌∷◌,
  ◌++◌, filter, any, update_where, delete_where, Bool-cases, inl, inr, arith,
}
use workspaces_backend.Core.{
  Action, ◌>>◌, Keeps, run, keep_bind, keep_pure, keep_query, keep_execute, keep_raise_if, query,
  raise_if, Error,
}
use workspaces_backend.Security.UserInfo.{UserInfo}
use workspaces_backend.Workspaces.Schema.{TaskDb, OsmDb, WorkspaceTeam, WorkspaceTeamUser}
use workspaces_backend.Workspaces.World.{World, begun, on_osm, commit_osm}
use workspaces_backend.Workspaces.Queries.{get_by_id}
use workspaces_backend.Workspaces.Teams.{
  is_team, is_team_in, links_team, is_link, create_team, update_team, delete_team, add_member,
  remove_member, add_link_unless, remove_link_if, assert_team_in_workspace,
}
use workspaces_backend.Workspaces.MemberRoutes.{
  create_team_for_workspace, update_team_for_workspace, delete_team_from_workspace,
  join_workspace_team, add_member_to_workspace_team, delete_member_from_workspace_team,
}
use workspaces_backend.Workspaces.Properties.Preservation.{Split, keep_commit_osm}

-- The six writing endpoints.
pub data TeamRequest : Type 0 where
  to_create_team : String → TeamRequest
  to_update_team : ℕ → String → TeamRequest
  to_delete_team to_join : ℕ → TeamRequest
  to_add_member to_remove_member : ℕ → ℕ → TeamRequest

abbrev pub after : {A : Type 0} → Action World A → World → World
after m w = (m (begun w)).1.committed

module _ (user : UserInfo) (workspace_id : ℕ) where
  unfoldable pub perform_team : TeamRequest → World → World
  perform_team (to_create_team name) = after (create_team_for_workspace user workspace_id name)
  perform_team (to_update_team id name) =
      after (update_team_for_workspace user workspace_id id name)
  perform_team (to_delete_team id) = after (delete_team_from_workspace user workspace_id id)
  perform_team (to_join id) = after (join_workspace_team user workspace_id id)
  perform_team (to_add_member id u) = after (add_member_to_workspace_team user workspace_id id u)
  perform_team (to_remove_member id u) =
      after (delete_member_from_workspace_team user workspace_id id u)

-- A team's row is the only one with its id, and its members are these.
abbrev pub Stands : WorkspaceTeam → List WorkspaceTeamUser → OsmDb → Type 0
Stands t links db =
    (filter (is_team t.id) db.teams ≡ t ∷ [])
    × (filter (links_team t.id) db.team_users ≡ links)
    × (t.id < db.next_team_id)

abbrev Any : TaskDb → Type 0
Any _ = Unit

module _ {A : Type 0} (p : A → Bool) where
  pub filter-append_false :
      (xs : List A) (x : A) → p x ≡ false → filter p (xs ++ x ∷ []) ≡ filter p xs
  filter-append_false [] x h = rw h refl
  filter-append_false (y ∷ xs) x h = ground (arith, filter-append_false xs x h)

  pub filter-update_apart :
      (q : A → Bool) (f : A → A)
      → ((x : A) → q x ≡ true → (p x ≡ false) × (p (f x) ≡ false))
      → (xs : List A) → filter p (update_where q f xs) ≡ filter p xs
  filter-update_apart q f apart [] = refl
  filter-update_apart q f apart (x ∷ xs) = elim (Bool-cases (q x)) [
    | inl e ↦ let a = apart x e in rw (e, a.0, a.1) (filter-update_apart q f apart xs)
    | inr e ↦ elim (Bool-cases (p x)) [
      | inl d ↦ rw (e, d) (ap (λ r. x ∷ r) (filter-update_apart q f apart xs))
      | inr d ↦ rw (e, d) (filter-update_apart q f apart xs)
    ]
  ]

  pub filter-delete_apart :
      (q : A → Bool)
      → ((x : A) → q x ≡ true → p x ≡ false)
      → (xs : List A) → filter p (delete_where q xs) ≡ filter p xs
  filter-delete_apart q apart [] = refl
  filter-delete_apart q apart (x ∷ xs) = elim (Bool-cases (q x)) [
    | inl e ↦ rw (e, apart x e) (filter-delete_apart q apart xs)
    | inr e ↦ elim (Bool-cases (p x)) [
      | inl d ↦ rw (e, d) (ap (λ r. x ∷ r) (filter-delete_apart q apart xs))
      | inr d ↦ rw (e, d) (filter-delete_apart q apart xs)
    ]
  ]

any-and :
    {A : Type 0} (p r : A → Bool) (xs : List A) → any (λ x. p x && r x) xs ≡ any r (filter p xs)
any-and p r [] = refl
any-and p r (x ∷ xs) = elim (Bool-cases (p x)) [
  | inl e ↦ rw e (ap (λ b. r x || b) (any-and p r xs))
  | inr e ↦ rw e (any-and p r xs)
]

module _ (t : WorkspaceTeam) (links : List WorkspaceTeamUser) (workspace_id : ℕ)
    (other : t.workspace_id ≢ workspace_id) where
  abbrev Untouched : World → Type 0
  Untouched = Split Any (Stands t links)

  -- A team that is in the workspace of the request is another team.
  other_team :
      (id : ℕ) (db : OsmDb)
      → Stands t links db
      → any (is_team_in id workspace_id) db.teams ≡ true
      → id ≢ t.id
  other_team id db st found same =
      let none_there : any (is_team_in t.id workspace_id) db.teams ≡ false =
        any-and (is_team t.id) (λ x. x.workspace_id == workspace_id) db.teams
        ∙ ap (any (λ x. x.workspace_id == workspace_id)) st.0
        ∙ ground (arith, other) in
      let there : any (is_team_in t.id workspace_id) db.teams ≡ true =
        ap (λ i. any (is_team_in i workspace_id) db.teams) (sym same) ∙ found in
      cc (none_there, there)

  module _ (id : ℕ) (apart : id ≢ t.id) where
    keep_update_team : (name : String) → Keeps Untouched (update_team id name)
    unfolding update_team
    keep_update_team name = keep_bind _ _ (keep_query _) (λ _.
        keep_bind _ _
          (keep_execute _ (λ w v. (
            v.0,
            (
              filter-update_apart (is_team t.id) (is_team id) _
                    (λ x e. (ground (arith, e, apart), ground (arith, e, apart))) w.osm.teams
                  ∙ v.1.0,
              v.1.1,
              v.1.2,
            ),
          )))
          (λ _. keep_commit_osm Any (Stands t links)))

    keep_delete_team : Keeps Untouched (delete_team id)
    unfolding delete_team
    keep_delete_team = keep_bind _ _ (keep_query _) (λ _. keep_bind _ _ (keep_query _) (λ _.
        keep_bind _ _ (keep_raise_if _ _) (λ _.
          keep_bind _ _
            (keep_execute _ (λ w v. (
              v.0,
              (
                filter-delete_apart (is_team t.id) (is_team id) (λ x e. ground (arith, e, apart))
                      w.osm.teams
                    ∙ v.1.0,
                v.1.1,
                v.1.2,
              ),
            )))
            (λ _. keep_commit_osm Any (Stands t links)))))

    keep_add_link : (linked : Bool) (u : ℕ) → Keeps Untouched (add_link_unless linked id u)
    unfolding add_link_unless
    keep_add_link true u = keep_pure tt
    keep_add_link false u =
        keep_bind _ _
          (keep_execute _ (λ w v. (
            v.0,
            (
              v.1.0,
              filter-append_false (links_team t.id) w.osm.team_users _ (ground (arith, apart))
                  ∙ v.1.1,
              v.1.2,
            ),
          )))
          (λ _. keep_commit_osm Any (Stands t links))

    keep_add_member : (u : ℕ) → Keeps Untouched (add_member id u)
    unfolding add_member
    keep_add_member u = keep_bind _ _ (keep_query _) (λ _.
        keep_bind _ _ (keep_query _)
          (λ _. keep_bind _ _ (keep_query _) (λ linked. keep_add_link linked u)))

    keep_remove_link : (linked : Bool) (u : ℕ) → Keeps Untouched (remove_link_if linked id u)
    unfolding remove_link_if
    keep_remove_link false u = keep_pure tt
    keep_remove_link true u =
        keep_bind _ _
          (keep_execute _ (λ w v. (
            v.0,
            (
              v.1.0,
              filter-delete_apart (links_team t.id) (is_link id u) (λ x e. ground (arith, e, apart))
                    w.osm.team_users
                  ∙ v.1.1,
              v.1.2,
            ),
          )))
          (λ _. keep_commit_osm Any (Stands t links))

    keep_remove_member : (u : ℕ) → Keeps Untouched (remove_member id u)
    unfolding remove_member
    keep_remove_member u = keep_bind _ _ (keep_query _) (λ _.
        keep_bind _ _ (keep_query _)
          (λ _. keep_bind _ _ (keep_query _) (λ linked. keep_remove_link linked u)))

  keep_create_team : (name : String) → Keeps Untouched (create_team workspace_id name)
  unfolding create_team run commit_osm
  keep_create_team name = record {
    keeps = λ s v c.
        let kept : Stands t links
            (on_osm
              (λ db. record db {
                teams =
                    db.teams
                    ++ (record { id = db.next_team_id; name = name; workspace_id = workspace_id })
                      ∷ [];
                next_team_id = db.next_team_id + 1;
              })
              s.working).osm =
          (
            filter-append_false (is_team t.id) s.working.osm.teams _ (ground (arith, v.1.2))
                ∙ v.1.0,
            v.1.1,
            omega (arith, v.1.2),
          ) in
        record { at = ((v.0, kept), (c.0, kept)) };
  }

  -- What follows `assert_team_in_workspace` works on a team of the request's workspace.
  keep_guarded :
      {A : Type 0} (id : ℕ) (m : Action World A)
      → (id ≢ t.id → Keeps Untouched m)
      → Keeps Untouched (assert_team_in_workspace id workspace_id >> m)
  unfolding assert_team_in_workspace run
  keep_guarded id m h = record {
    keeps = λ s v c. elim (Bool-cases (any (is_team_in id workspace_id) s.working.osm.teams)) [
      | inl found ↦ record {
        at = rw found ((h (other_team id s.working.osm v.1 found)).keeps s v c).at;
      }
      | inr missing ↦ record { at = rw missing (v, c) }
    ];
  }

  keep_request :
      {A : Type 0} (user : UserInfo) (m : Action World A)
      → Keeps Untouched m
      → Keeps Untouched (query (λ w. get_by_id user workspace_id w.tasks) >> m)
  keep_request user m h = keep_bind _ _ (keep_query _) (λ _. h)

  keep_leads :
      {A : Type 0} (c : Bool) (e : Error) (m : Action World A)
      → Keeps Untouched m
      → Keeps Untouched (raise_if c e >> m)
  keep_leads c e m h = keep_bind _ _ (keep_raise_if c e) (λ _. h)

  committed_after :
      {A : Type 0} (m : Action World A) (w : World)
      → Keeps Untouched m
      → Stands t links w.osm
      → Stands t links (after m w).osm
  committed_after m w h st = (h.keeps (begun w) (tt, st) (tt, st)).at.1.1

  -- Teams are isolated: whichever of the six writing team endpoints is called for a workspace, with
  -- whichever team id, and however it ends, a team of another workspace keeps its row and its
  -- members, if team ids are unique and below the sequence's next value.
  pub perform_team-Stands :
      (user : UserInfo) (r : TeamRequest) (w : World)
      → Stands t links w.osm
      → Stands t links (perform_team user workspace_id r w).osm
  unfolding perform_team create_team_for_workspace update_team_for_workspace
      delete_team_from_workspace join_workspace_team add_member_to_workspace_team
      delete_member_from_workspace_team
  perform_team-Stands user (to_create_team name) w =
      committed_after _ w (keep_leads _ _ _ (keep_request user _ (keep_create_team name)))
  perform_team-Stands user (to_update_team id name) w = committed_after _ w (
      keep_leads _ _ _
        (keep_request user _ (keep_guarded id _ (λ apart. keep_update_team id apart name))))
  perform_team-Stands user (to_delete_team id) w = committed_after _ w (
      keep_leads _ _ _
        (keep_request user _ (keep_guarded id _ (λ apart. keep_delete_team id apart))))
  perform_team-Stands user (to_join id) w = committed_after _ w (
      keep_request user _ (
        keep_guarded id _ (λ apart.
          keep_bind _ _ (keep_query _) (λ member.
            keep_bind _ _ (keep_add_member id apart member.id) (λ _. keep_pure member)))))
  perform_team-Stands user (to_add_member id u) w = committed_after _ w (
      keep_leads _ _ _
        (keep_request user _ (keep_guarded id _ (λ apart. keep_add_member id apart u))))
  perform_team-Stands user (to_remove_member id u) w = committed_after _ w (
      keep_leads _ _ _
        (keep_request user _ (keep_guarded id _ (λ apart. keep_remove_member id apart u))))
