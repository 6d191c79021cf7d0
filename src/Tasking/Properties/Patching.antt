-- ===== src/Tasking/Properties/Patching.antt =====
-- What a project keeps when it is edited: `patch` of api/src/tasking/projects/repository.py.
use workspaces_backend.Tasking.Projects.Edit.{
  ProjectUpdateRequest, apply_updates, patch, changes_review, save_updates, is_nil, updated_fields,
}
use workspaces_backend.Base.{
  ℕ, ◌≡◌, refl, ap, ◌∙◌, false, List, [], ◌∷◌, Option, none, arith, Bool-cases, inl, inr, filter,
  any, ◌==◌, ==_refl, update_where, filter-update_where,
}
use workspaces_backend.Core.{
  ok, Ends, bind_query, bind_found, bind_raise_if, bind_execute, end_pure, end_commit,
  scalar_one_or_raise-eq-ok, scalar_one_or_raise, bind_known, Both, end_rolling_back, end_query,
}
use workspaces_backend.Security.UserInfo.{UserInfo}
use workspaces_backend.Tasking.Schema.{
  Db, TaskingProject, Datetime, is_draft, AuditEventType, Details, project_edited, fields_details,
}
use workspaces_backend.Tasking.Tasks.Queries.{get_project, is_project, audit}
use workspaces_backend.Tasking.Projects.Queries.{update_project, is_named}
use workspaces_backend.Tasking.Service.{opened, after}

module _ (now : Datetime) (w i : ℕ) (user : UserInfo) where
  module _ (lower : List ℕ → List ℕ) (body : ProjectUpdateRequest) where
    update_project-get_project :
        (db : Db) (project : TaskingProject)
        → get_project w i db ≡ ok project
        → get_project w i (update_project project.id (apply_updates body now) db)
          ≡ ok (apply_updates body now project)
    unfolding get_project update_project apply_updates
    update_project-get_project db project h =
        let one = scalar_one_or_raise-eq-ok _ (filter (is_project w i) db.projects) project h in
        let hit : filter (is_project w i)
              (update_where (λ q. q.id == project.id) (apply_updates body now) db.projects)
            ≡ apply_updates body now project ∷ [] =
          filter-update_where (is_project w i) (λ q. q.id == project.id) (apply_updates body now)
            (λ q. refl) db.projects
          ∙ ap (update_where (λ q. q.id == project.id) (apply_updates body now)) one
          ∙ rw (==_refl project.id) refl in
        ap (scalar_one_or_raise _) hit

    -- The project that is found afterwards has the same review rule.
    abbrev pub SameReview : TaskingProject → Db → Type 0
    SameReview project db =
        (p : TaskingProject)
        → get_project w i db ≡ ok p
        → p.review_required ≡ project.review_required

    apply_updates-review :
        (project : TaskingProject)
        → changes_review body.review_required project.review_required ≡ false
        → (apply_updates body now project).review_required ≡ project.review_required
    unfolding apply_updates
    apply_updates-review project h = ground (arith, h)

    same_review :
        (project : TaskingProject) (db : Db)
        → get_project w i db ≡ ok project
        → SameReview project db
    same_review project db h p k =
        let same : p ≡ project = cc (h, k) in ap (λ (x : TaskingProject). x.review_required) same

    audit-SameReview :
        (project : TaskingProject) (e : AuditEventType) (k : ℕ) (t : Option ℕ) (u : ℕ) (d : Details)
        (db : Db)
        → SameReview project db
        → SameReview project (audit e k t u d db)
    unfolding audit get_project
    audit-SameReview project e k t u d db h = h

    save_updates-SameReview :
        (db : Db) (project : TaskingProject)
        → get_project w i db ≡ ok project
        → changes_review body.review_required project.review_required ≡ false
        → Ends
            (Both (SameReview project))
            (save_updates lower (apply_updates body now) project)
            (opened db)
    unfolding save_updates
    save_updates-SameReview db project hp fixed =
        elim (Bool-cases (any (is_named lower (apply_updates body now project)) db.projects)) [
          | inl e ↦ record {
            at = rw (e, save_updates) (same_review project db hp, same_review project db hp);
          }
          | inr e ↦ record {
            at =
                rw (e, save_updates)
                  (
                    (λ p k.
                        let same : p ≡ apply_updates body now project =
                          cc (update_project-get_project db project hp, k) in
                        ap (λ (x : TaskingProject). x.review_required) same
                        ∙ apply_updates-review project fixed),
                    same_review project db hp,
                  );
          }
        ]

    patch-Ends :
        (db : Db) (project : TaskingProject)
        → get_project w i db ≡ ok project
        → is_draft project.status ≡ false
        → Ends (λ r. SameReview project r.1.committed) (patch lower now w i body user) (opened db)
    unfolding patch
    patch-Ends db project hp active =
        let unchanged = same_review project db hp in
        bind_found _ _ hp (
          bind_raise_if _ _ _
            (λ _.
              bind_raise_if _ _ _
                (λ same.
                  let fixed : changes_review body.review_required project.review_required ≡ false =
                    ground (arith, same, active) in
                  bind_known {Q = Both (SameReview project)} _ _
                    (elim (Bool-cases (is_nil (updated_fields body))) [
                      | inl e ↦ rw e (end_pure project (unchanged, unchanged))
                      | inr e ↦ rw e (
                          bind_known _ _
                            (end_rolling_back (SameReview project) _ _ (
                              bind_known _ _ (save_updates-SameReview db project hp fixed)
                                (λ _ s' q.
                                  let noted =
                                    audit-SameReview project project_edited project.id none
                                      user.user_uuid (fields_details (updated_fields body))
                                      s'.working q.0 in
                                  bind_execute _ _ (end_commit (noted, noted)))
                                (λ e s' q. q)))
                            (λ _ s' q. end_query _ (λ _. q)) (λ e s' q. q))
                    ])
                    (λ _ s' q. bind_query _ _ (λ _ _. end_pure _ q.1) (λ e. q.1)) (λ e s' q. q.1))
                unchanged)
            unchanged)

    -- The review rule is fixed once a project has left draft: whatever `patch` is asked and however
    -- it ends, the project that the tables then hold under the same path has the rule it had.
    pub patch-review_required :
        (db : Db) (project later : TaskingProject)
        → get_project w i db ≡ ok project
        → is_draft project.status ≡ false
        → get_project w i (after (patch lower now w i body user) db) ≡ ok later
        → later.review_required ≡ project.review_required
    patch-review_required db project later hp active hl =
        (patch-Ends db project hp active).at later hl
