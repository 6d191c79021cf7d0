-- ===== src/Tasking/Safety/Roles.antt =====
-- The role endpoints against the invariant (api/src/tasking/projects/repository.py).
use workspaces_backend.Tasking.Tasks.Queries.{is_role_of}
use workspaces_backend.Base.{ℕ, List, [], ◌∷◌, Option, none, some, Bool-cases, inl, inr, any}
use workspaces_backend.Core.{
  Keeps, Keeps, keep_bind, keep_pure, keep_query, keep_rolling_back, keep_raise_if, keep_execute,
  keep_commit, keep_if, keep_step,
}
use workspaces_backend.Tasking.Schema.{Db, TaskingProjectRole, Datetime, RoleType, Uuid}
use workspaces_backend.Tasking.Invariant.{Inv}
use workspaces_backend.Tasking.Projects.Provision.{
  Members, TdeiProjectGroupUser, insert_user, insert_members, provision_users_from_tdei, member_of,
  is_user, is_member,
}
use workspaces_backend.Tasking.Projects.Roles.{
  insert_role, set_role, upsert_role_row, provision_missing, add_role, update_role, upsert_role,
  delete_role, remove_role,
}

insert_user-Inv : (m : TdeiProjectGroupUser) (db : Db) → Inv db → Inv (insert_user m db)
unfolding insert_user
insert_user-Inv m db v = v

insert_members-Inv :
    (uids : List Uuid) (ms : List TdeiProjectGroupUser) (db : Db)
    → Inv db
    → Inv (insert_members uids ms db)
unfolding insert_members
insert_members-Inv [] ms db v = v
insert_members-Inv (u ∷ us) ms db v = insert_members-Inv us ms _ (after (member_of u ms))
  where
    after :
        (o : Option TdeiProjectGroupUser) → Inv (elim o [ none ↦ db | some m ↦ insert_user m db ])
    after none = v
    after (some m) = insert_user-Inv m db v

pub provision_users_from_tdei-Keeps :
    (fetched : Members) (missing : List Uuid)
    → Keeps Inv (provision_users_from_tdei fetched missing)
unfolding provision_users_from_tdei
provision_users_from_tdei-Keeps fetched missing = keep_bind _ _ (keep_query _) λ members.
    keep_bind _ _ (keep_execute _ (insert_members-Inv missing members)) λ _.
      keep_bind _ _ (keep_if (any (is_member members) missing) _ _ keep_commit (keep_pure tt))
        λ _. keep_pure _

pub insert_role-Keeps : (r : TaskingProjectRole) → Keeps Inv (insert_role r)
unfolding insert_role
insert_role-Keeps r = keep_step _ λ s v c.
    elim (Bool-cases (any (is_user r.user_auth_uid) s.working.users)) [
      | inr e ↦ rw e (v, c)
      | inl e ↦
          elim (Bool-cases
            (any (is_role_of r.project_id r.user_auth_uid) s.working.project_roles)) [
              | inl d ↦ rw (e, d) (v, c)
              | inr d ↦ rw (e, d) (v, c)
            ]
    ]

set_role-Inv :
    (i u : ℕ) (role : RoleType) (now : ℕ) (db : Db) → Inv db → Inv (set_role i u role now db)
unfolding set_role
set_role-Inv i u role now db v = v

pub upsert_role_row-Keeps : (r : TaskingProjectRole) → Keeps Inv (upsert_role_row r)
unfolding upsert_role_row
upsert_role_row-Keeps r = record {
  keeps = λ s v c.
      elim (Bool-cases (any (is_role_of r.project_id r.user_auth_uid) s.working.project_roles)) [
        | inl e ↦ record {
          at = rw e (set_role-Inv r.project_id r.user_auth_uid r.role r.updated_at s.working v, c);
        }
        | inr e ↦ record { at = rw e ((insert_role-Keeps r).keeps s v c).at }
      ];
}

delete_role-Inv : (i u : ℕ) (db : Db) → Inv db → Inv (delete_role i u db)
unfolding delete_role
delete_role-Inv i u db v = v

provision_missing-Keeps :
    (members : Members) (missing : List Uuid) → Keeps Inv (provision_missing members missing)
unfolding provision_missing
provision_missing-Keeps members [] = keep_pure _
provision_missing-Keeps members (u ∷ us) = provision_users_from_tdei-Keeps members (u ∷ us)

module _ (w i : ℕ) (u : Uuid) where
  module _ (now : Datetime) (role : RoleType) where
    pub add_role-Keeps : (members : Members) → Keeps Inv (add_role members now w i u role)
    unfolding add_role
    add_role-Keeps members = keep_bind _ _ (keep_query _) λ _.
        keep_bind _ _ (keep_query _) λ missing.
          keep_bind _ _ (provision_missing-Keeps members missing) λ _.
            keep_bind _ _ (keep_raise_if _ _) λ _. keep_bind _ _ (keep_query _) λ _.
              keep_bind _ _ (keep_raise_if _ _) λ _.
                keep_bind _ _
                  (keep_rolling_back _ _ (keep_bind _ _ (insert_role-Keeps _) λ _. keep_commit))
                  λ _. keep_query _

    pub update_role-Keeps : Keeps Inv (update_role now w i u role)
    unfolding update_role
    update_role-Keeps = keep_bind _ _ (keep_query _) λ _. keep_bind _ _ (keep_query _) λ _.
        keep_bind _ _ (keep_query _) λ _. keep_bind _ _ (keep_raise_if _ _) λ _.
          keep_bind _ _ (keep_execute _ (set_role-Inv i u role now))
            λ _. keep_bind _ _ keep_commit λ _. keep_query _

    pub upsert_role-Keeps : Keeps Inv (upsert_role now w i u role)
    unfolding upsert_role
    upsert_role-Keeps = keep_bind _ _ (keep_query _) λ _. keep_bind _ _ (keep_query _) λ _.
        keep_bind _ _ (keep_query _) λ _.
          keep_bind _ _
            (keep_rolling_back _ _ (keep_bind _ _ (upsert_role_row-Keeps _) λ _. keep_commit))
            λ _. keep_bind _ _ (keep_query _) λ _. keep_pure _

  pub remove_role-Keeps : Keeps Inv (remove_role w i u)
  unfolding remove_role
  remove_role-Keeps = keep_bind _ _ (keep_query _) λ _. keep_bind _ _ (keep_query _) λ _.
      keep_bind _ _ (keep_query _) λ _.
        keep_bind _ _ (keep_raise_if _ _)
          λ _. keep_bind _ _ (keep_execute _ (delete_role-Inv i u)) λ _. keep_commit
