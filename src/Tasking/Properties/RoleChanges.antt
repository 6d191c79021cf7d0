-- ===== src/Tasking/Properties/RoleChanges.antt =====
-- The role endpoints and the LEAD of a project (api/src/tasking/projects/repository.py).
use workspaces_backend.Tasking.Properties.RoleSteps.{
  provision_missing-HasLead, get_role_row-ok, upsert_role_row-HasLead, insert_role-HasLead,
  upsert_check-guard,
}
use workspaces_backend.Security.UserInfo.{UserInfo}
use workspaces_backend.Tasking.Geometry.{Shapely}
use workspaces_backend.Base.{ℕ, ◌≡◌, ap, ◌∙◌, Bool, true, false, ◌&&◌, List, leb}
use workspaces_backend.Core.{
  Keeps, keep_bind, keep_query, keep_raise_if, keep_rolling_back, keep_commit, bind_query,
  bind_raise_if, bind_execute, bind_commit, end_commit, end_query, bind_known, end_rolling_back,
  end_pure,
}
use workspaces_backend.Tasking.Schema.{Db, RoleType, Datetime, Uuid, is_lead}
use workspaces_backend.Tasking.Projects.Provision.{Members}
use workspaces_backend.Tasking.Service.{
  Operation, perform, opened, to_add_role, to_update_role, to_upsert_role, to_remove_role,
}
use workspaces_backend.Tasking.Projects.Roles.{
  lead_count, get_role_or_none, add_role, update_role, upsert_role, remove_role, demotes_last_lead,
}
use workspaces_backend.Tasking.Properties.Leads.{HasLead, set_role-HasLead, delete_role-HasLead}

module _ (k : ℕ) (w i : ℕ) (u : Uuid) where
  module _ (now : Datetime) (role : RoleType) where
    add_role-HasLead : (members : Members) → Keeps (HasLead k) (add_role members now w i u role)
    unfolding add_role
    add_role-HasLead members = keep_bind _ _ (keep_query _) λ _.
        keep_bind _ _ (keep_query _) λ missing.
          keep_bind _ _ (provision_missing-HasLead k members missing) λ _.
            keep_bind _ _ (keep_raise_if _ _) λ _. keep_bind _ _ (keep_query _) λ _.
              keep_bind _ _ (keep_raise_if _ _) λ _.
                keep_bind _ _
                  (keep_rolling_back _ _ (keep_bind _ _ (insert_role-HasLead k _) λ _. keep_commit))
                  λ _. keep_query _

    update_role-HasLead : Keeps (HasLead k) (update_role now w i u role)
    unfolding update_role
    update_role-HasLead = record {
      keeps = λ s v c.
          bind_query _ _
            (λ _ _.
              bind_query _ _
                (λ current hc.
                  bind_query _ _
                    (λ leads hl.
                      bind_raise_if _ _ _
                        (λ guard.
                          let counted : lead_count i s.working ≡ leads = cc hl in
                          let changed =
                            set_role-HasLead k i u s.working v current
                              (get_role_row-ok i u s.working current hc) role now
                              (ap (demotes_last_lead current.role role) counted ∙ guard) in
                          bind_execute _ _ (bind_commit _ (end_query _ (λ _. (changed, changed)))))
                        (v, c))
                    (λ e. (v, c)))
                (λ e. (v, c)))
            (λ e. (v, c));
    }

    upsert_role-HasLead : Keeps (HasLead k) (upsert_role now w i u role)
    unfolding upsert_role
    upsert_role-HasLead = record {
      keeps = λ s v c.
          bind_query _ _
            (λ _ _.
              bind_query _ _
                (λ current hc.
                  bind_query _ _
                    (λ _ checked.
                      let stored : get_role_or_none i u s.working ≡ current = cc hc in
                      bind_known _ _
                        (end_rolling_back (HasLead k) _ _ (
                          bind_known _ _
                            (upsert_role_row-HasLead k i u now role s v c
                              (upsert_check-guard k i u now role current s.working checked stored))
                            (λ _ s' q. end_commit (q.0, q.0)) (λ e s' q. q)))
                        (λ _ s' q. bind_query _ _ (λ _ _. end_pure _ q) (λ e. q)) (λ e s' q. q))
                    (λ e. (v, c)))
                (λ e. (v, c)))
            (λ e. (v, c));
    }

  remove_role-HasLead : Keeps (HasLead k) (remove_role w i u)
  unfolding remove_role
  remove_role-HasLead = record {
    keeps = λ s v c.
        bind_query _ _
          (λ _ _.
            bind_query _ _
              (λ current hc.
                bind_query _ _
                  (λ leads hl.
                    bind_raise_if _ _ _
                      (λ guard.
                        let counted : lead_count i s.working ≡ leads = cc hl in
                        let changed =
                          delete_role-HasLead k i u s.working v current
                            (get_role_row-ok i u s.working current hc)
                            (ap (λ n. is_lead current.role && leb n 1) counted ∙ guard) in
                        bind_execute _ _ (end_commit (changed, changed)))
                      (v, c))
                  (λ e. (v, c)))
              (λ e. (v, c)))
          (λ e. (v, c));
  }

abbrev pub changes_a_role : Operation → Bool
changes_a_role (to_add_role p u role members) = true
changes_a_role (to_update_role p u role) = true
changes_a_role (to_upsert_role p u role) = true
changes_a_role (to_remove_role p u) = true
changes_a_role _ = false

-- A role endpoint never takes a project's last LEAD away: whichever role endpoint is called, on
-- this project or on another one, and however it ends, a project that had a LEAD and at most one
-- role for each user has both in the tables that are committed.
pub role_change-HasLead :
    (k : ℕ) (lower : List ℕ → List ℕ) (lib : Shapely) (user : UserInfo) (now : ℕ) (o : Operation)
    (db : Db)
    → changes_a_role o ≡ true
    → HasLead k db
    → HasLead k (perform lower lib user now o db)
unfolding perform
role_change-HasLead k lower lib user now (to_add_role p u role members) db h v =
    ((add_role-HasLead k p.workspace_id p.project_id u now role members).keeps (opened db) v v).at.1
role_change-HasLead k lower lib user now (to_update_role p u role) db h v =
    ((update_role-HasLead k p.workspace_id p.project_id u now role).keeps (opened db) v v).at.1
role_change-HasLead k lower lib user now (to_upsert_role p u role) db h v =
    ((upsert_role-HasLead k p.workspace_id p.project_id u now role).keeps (opened db) v v).at.1
role_change-HasLead k lower lib user now (to_remove_role p u) db h v =
    ((remove_role-HasLead k p.workspace_id p.project_id u).keeps (opened db) v v).at.1
role_change-HasLead k lower lib user now _ db h v = absurd (cc h)
