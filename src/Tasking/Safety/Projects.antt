-- ===== src/Tasking/Safety/Projects.antt =====
-- The life cycle of a project against the invariant: `soft_delete`, `activate`, `close`, `reset`,
-- `upload_aoi` and `delete_aoi` of api/src/tasking/projects/repository.py.
use workspaces_backend.Base.{ℕ, refl, Option, none, Bool-cases, inl, inr}
use workspaces_backend.Core.{
  Session, bind_query, bind_raise_if, bind_execute, bind_commit, end_pure, end_commit, Ends,
}
use workspaces_backend.Security.UserInfo.{UserInfo}
use workspaces_backend.Tasking.Schema.{
  Db, TaskingProject, Datetime, is_done, project_activated, project_closed, project_reset,
  no_details, open_, done,
}
use workspaces_backend.Tasking.Geometry.{Shapely}
use workspaces_backend.Tasking.Invariant.{Inv}
use workspaces_backend.Tasking.Safety.Reads.{IsKept}
use workspaces_backend.Tasking.Safety.Writes.{audit-Inv}
use workspaces_backend.Tasking.Safety.ProjectWrites.{
  update_project-Inv, update_idle_project-Inv, release_all-Inv, release_all-IsIdle,
  rewind_tasks-Inv, delete_tasks-Inv, flag_audit-Inv,
}
use workspaces_backend.Tasking.Projects.Lifecycle.{
  soft_delete, activate, close, reset_project, reopen,
}
use workspaces_backend.Tasking.Projects.Edit.{upload_aoi, delete_aoi, AoiInput, set_aoi}

reopen-Inv : (project : TaskingProject) (now : ℕ) (db : Db) → Inv db → Inv (reopen project now db)
unfolding reopen
reopen-Inv project now db v = elim (Bool-cases (is_done project.status)) [
  | inl e ↦ rw e (update_project-Inv project.id _ db v (λ p. refl) (λ p. refl) (λ p h. refl))
  | inr e ↦ rw e v
]

set_aoi-Inv : (k : ℕ) (aoi : Option ℕ) (now : ℕ) (db : Db) → Inv db → Inv (set_aoi k aoi now db)
unfolding set_aoi
set_aoi-Inv k aoi now db v = update_project-Inv k _ db v (λ p. refl) (λ p. refl) (λ p h. h)

module _ (now : Datetime) (w i : ℕ) (user : UserInfo) where
  pub soft_delete-IsKept :
      (s : Session Db) → Inv s.working → Inv s.committed → Ends IsKept (soft_delete now w i user) s
  unfolding soft_delete
  soft_delete-IsKept s v c =
      bind_query _ _
        (λ project hp.
          bind_query _ _
            (λ active ha.
              bind_raise_if _ _ _
                (λ idle. bind_execute _ _ (
                  bind_execute _ _ (
                    bind_execute _ _ (
                      bind_execute _ _ (
                        end_commit (
                          flag_audit-Inv _ _ (
                            audit-Inv _ _ _ _ _ _ (
                              delete_tasks-Inv project.id _ (
                                update_idle_project-Inv project.id _ s.working v (λ p. refl)
                                  (cc (ha, idle)))))))))))
                c)
            (λ e. c))
        (λ e. c)

  pub activate-IsKept :
      (s : Session Db) → Inv s.working → Inv s.committed → Ends IsKept (activate now w i user) s
  unfolding activate
  activate-IsKept s v c =
      bind_query _ _
        (λ project _.
          bind_raise_if _ _ _
            (λ _.
              bind_raise_if _ _ _
                (λ _.
                  bind_raise_if _ _ _
                    (λ _.
                      bind_query _ _
                        (λ count _.
                          bind_raise_if _ _ _
                            (λ _.
                              bind_query _ _
                                (λ staffed _.
                                  bind_raise_if _ _ _
                                    (λ _.
                                      let after =
                                        audit-Inv project_activated project.id none user.user_uuid
                                          no_details _
                                          (update_project-Inv project.id
                                            (λ p. record p { status = open_; updated_at = now })
                                            s.working v (λ p. refl) (λ p. refl) (λ p h. refl)) in
                                      bind_execute _ _ (
                                        bind_execute _ _ (
                                          bind_commit _ (
                                            bind_query _ _ (λ _ _. end_pure _ after)
                                              (λ e. after)))))
                                    c)
                                (λ e. c))
                            c)
                        (λ e. c))
                    c)
                c)
            c)
        (λ e. c)

  pub close-IsKept :
      (s : Session Db) → Inv s.working → Inv s.committed → Ends IsKept (close now w i user) s
  unfolding close
  close-IsKept s v c =
      bind_query _ _
        (λ project _.
          bind_raise_if _ _ _
            (λ _.
              bind_query _ _
                (λ not_done _.
                  bind_raise_if _ _ _
                    (λ _.
                      bind_query _ _
                        (λ active ha.
                          bind_raise_if _ _ _
                            (λ idle.
                              let after =
                                audit-Inv project_closed project.id none user.user_uuid no_details _
                                  (update_idle_project-Inv project.id
                                    (λ p. record p { status = done; updated_at = now }) s.working v
                                    (λ p. refl) (cc (ha, idle))) in
                              bind_execute _ _ (
                                bind_execute _ _ (
                                  bind_commit _ (
                                    bind_query _ _
                                      (λ _ _. bind_query _ _ (λ _ _. end_pure _ after) (λ e. after))
                                      (λ e. after)))))
                            c)
                        (λ e. c))
                    c)
                (λ e. c))
            c)
        (λ e. c)

  pub reset_project-IsKept :
      (s : Session Db)
      → Inv s.working
      → Inv s.committed
      → Ends IsKept (reset_project now w i user) s
  unfolding reset_project
  reset_project-IsKept s v c =
      bind_query _ _
        (λ project _.
          bind_raise_if _ _ _
            (λ _.
              let after = audit-Inv project_reset project.id none user.user_uuid no_details _ (
                reopen-Inv project now _ (
                  rewind_tasks-Inv project.id now _ (release_all-Inv project.id now s.working v)
                    (release_all-IsIdle project.id now s.working))) in
              bind_execute _ _ (
                bind_execute _ _ (
                  bind_execute _ _ (
                    bind_execute _ _ (
                      bind_commit _ (
                        bind_query _ _
                          (λ _ _. bind_query _ _ (λ _ _. end_pure _ after) (λ e. after))
                          (λ e. after)))))))
            c)
        (λ e. c)

  pub upload_aoi-IsKept :
      (lib : Shapely) (aoi : AoiInput) (s : Session Db)
      → Inv s.working
      → Inv s.committed
      → Ends IsKept (upload_aoi lib now w i aoi user) s
  unfolding upload_aoi
  upload_aoi-IsKept lib aoi s v c =
      bind_query _ _
        (λ project _.
          bind_raise_if _ _ _
            (λ _.
              bind_query _ _
                (λ geom _. bind_execute _ _ (
                  bind_execute _ _ (
                    bind_execute _ _ (
                      bind_commit _ (
                        end_pure _ (
                          audit-Inv _ _ _ _ _ _ (
                            set_aoi-Inv project.id _ now _
                              (delete_tasks-Inv project.id s.working v))))))))
                (λ e. c))
            c)
        (λ e. c)

  pub delete_aoi-IsKept :
      (s : Session Db) → Inv s.working → Inv s.committed → Ends IsKept (delete_aoi now w i user) s
  unfolding delete_aoi
  delete_aoi-IsKept s v c =
      bind_query _ _
        (λ project _.
          bind_raise_if _ _ _
            (λ _.
              bind_raise_if _ _ _
                (λ _. bind_execute _ _ (
                  bind_execute _ _ (
                    bind_execute _ _ (
                      end_commit (
                        audit-Inv _ _ _ _ _ _ (
                          set_aoi-Inv project.id none now _
                            (delete_tasks-Inv project.id s.working v)))))))
                c)
            c)
        (λ e. c)
