-- ===== src/Tasking/Properties/RoleSteps.antt =====
-- The statements of the role endpoints and the LEAD of a project
-- (api/src/tasking/projects/repository.py).

use workspaces_backend.Base.{
  ℕ, ◌≡◌, refl, ◌∙◌, Bool, true, false, List, [], ◌∷◌, Option, none, some, arith, Bool-cases, inl,
  inr, filter, length, any, length-filter-append, length-filter_none, ◌++◌, subst,
}
use workspaces_backend.Core.{
  ok, Keeps, keep_bind, keep_query, keep_execute, keep_commit, keep_step, keep_pure, keep_if, Ends,
  Session, Both,
}
use workspaces_backend.Tasking.Schema.{Db, TaskingProjectRole, RoleType, Datetime, Uuid}
use workspaces_backend.Tasking.Tasks.Queries.{is_role_of}
use workspaces_backend.Tasking.Projects.Provision.{
  Members, is_user, is_member, insert_user, insert_members, member_of, provision_users_from_tdei,
  TdeiProjectGroupUser,
}
use workspaces_backend.Tasking.Projects.Create.{role_row}
use workspaces_backend.Tasking.Projects.Roles.{
  is_lead_of, lead_count, insert_role, upsert_role_row, get_role_row, get_role_or_none,
  provision_missing, upsert_check, first, demotes_last_lead,
}
use workspaces_backend.Tasking.Properties.Leads.{HasLead, set_role-HasLead}

pub get_role_row-ok :
    (i : ℕ) (u : Uuid) (db : Db) (r : TaskingProjectRole)
    → get_role_row i u db ≡ ok r
    → get_role_or_none i u db ≡ some r
unfolding get_role_row
get_role_row-ok i u db r h = go (get_role_or_none i u db) refl
  where
    go :
        (o : Option TaskingProjectRole)
        → get_role_or_none i u db ≡ o
        → get_role_or_none i u db ≡ some r
    go none e = absurd (cc (rw e at h))
    go (some x) e = e ∙ cc (rw e at h)

append-HasLead :
    (k : ℕ) (r : TaskingProjectRole) (db : Db)
    → HasLead k db
    → any (is_role_of r.project_id r.user_auth_uid) db.project_roles ≡ false
    → HasLead k (record db { project_roles = db.project_roles ++ r ∷ [] })
unfolding lead_count
append-HasLead k r db v fresh = record {
  unique_role = λ j w. ground (
    arith,
    v.unique_role j w,
    length-filter-append (is_role_of j w) db.project_roles (r ∷ []),
    length-filter_none (is_role_of r.project_id r.user_auth_uid) db.project_roles fresh,
    same_count j w,
  );
  some_lead =
      omega (arith, v.some_lead, length-filter-append (is_lead_of k) db.project_roles (r ∷ []));
}
  where
    same_count :
        (j w : ℕ)
        → r.project_id ≡ j
        → r.user_auth_uid ≡ w
        → length (filter (is_role_of r.project_id r.user_auth_uid) db.project_roles)
          ≡ length (filter (is_role_of j w) db.project_roles)
    same_count j w e d = rw (e, d) refl

pub insert_role-HasLead : (k : ℕ) (r : TaskingProjectRole) → Keeps (HasLead k) (insert_role r)
unfolding insert_role
insert_role-HasLead k r = keep_step _ λ s v c.
    elim (Bool-cases (any (is_user r.user_auth_uid) s.working.users)) [
      | inr e ↦ rw (e, insert_role) (v, c)
      | inl e ↦
          elim (Bool-cases
            (any (is_role_of r.project_id r.user_auth_uid) s.working.project_roles)) [
              | inl d ↦ rw (e, d, insert_role) (v, c)
              | inr d ↦ rw (e, d, insert_role) (append-HasLead k r s.working v d, c)
            ]
    ]

any-first :
    {A : Type 0} (q : A → Bool) (xs : List A)
    → any q xs ≡ true
    → (x : A) × (first (filter q xs) ≡ some x)
any-first q [] h = absurd (cc h)
any-first q (x ∷ xs) h = elim (Bool-cases (q x)) [
  | inl e ↦ (x, rw e refl)
  | inr e ↦ rw e (any-first q xs (rw e at h))
]

module _ (k i : ℕ) (u : Uuid) (now : Datetime) (role : RoleType) where
  -- The upsert, where the guard has passed for the row that it may overwrite.
  pub upsert_role_row-HasLead :
      (s : Session Db)
      → HasLead k s.working
      → HasLead k s.committed
      → ((c : TaskingProjectRole)
          → get_role_or_none i u s.working ≡ some c
          → demotes_last_lead c.role role (lead_count i s.working) ≡ false)
      → Ends (Both (HasLead k)) (upsert_role_row (role_row i now u role)) s
  unfolding upsert_role_row
  upsert_role_row-HasLead s v c guard =
      elim (Bool-cases (any (is_role_of i u) s.working.project_roles)) [
        | inr e ↦ record {
          at =
              rw (e, upsert_role_row)
                ((insert_role-HasLead k (role_row i now u role)).keeps s v c).at;
        }
        | inl e ↦
            let row : (x : TaskingProjectRole) × (get_role_or_none i u s.working ≡ some x) =
              unfold get_role_or_none in any-first (is_role_of i u) s.working.project_roles e in
            record {
              at =
                  rw (e, upsert_role_row)
                    (
                      set_role-HasLead k i u s.working v row.0 row.1 role now (guard row.0 row.1),
                      c,
                    );
            }
      ]

  pub upsert_check-guard :
      (o : Option TaskingProjectRole) (db : Db)
      → upsert_check i u role o db ≡ ok tt
      → get_role_or_none i u db ≡ o
      → (c : TaskingProjectRole) → get_role_or_none i u db ≡ some c
      → demotes_last_lead c.role role (lead_count i db) ≡ false
  unfolding upsert_check
  upsert_check-guard none db h e c found = absurd (cc (found, e))
  upsert_check-guard (some r) db h e c found =
      let same : r ≡ c = cc (found, e) in
      elim (Bool-cases (demotes_last_lead r.role role (lead_count i db))) [
        | inl d ↦ absurd (cc (rw d at h))
        | inr d ↦
            subst
              (λ (x : TaskingProjectRole). demotes_last_lead x.role role (lead_count i db) ≡ false)
              same d
      ]

insert_members-HasLead :
    (k : ℕ) (uids : List Uuid) (ms : List TdeiProjectGroupUser) (db : Db)
    → HasLead k db
    → HasLead k (insert_members uids ms db)
unfolding insert_members insert_user lead_count
insert_members-HasLead k [] ms db v = v
insert_members-HasLead k (u ∷ us) ms db v =
    insert_members-HasLead k us ms _ (after (member_of u ms))
  where
    after :
        (o : Option TdeiProjectGroupUser)
        → HasLead k (elim o [ none ↦ db | some m ↦ insert_user m db ])
    after none = v
    after (some m) = record { unique_role = v.unique_role; some_lead = v.some_lead }

pub provision_missing-HasLead :
    (k : ℕ) (members : Members) (missing : List Uuid)
    → Keeps (HasLead k) (provision_missing members missing)
unfolding provision_missing provision_users_from_tdei
provision_missing-HasLead k members [] = keep_pure _
provision_missing-HasLead k members (u ∷ us) = keep_bind _ _ (keep_query _) λ found.
    keep_bind _ _ (keep_execute _ (insert_members-HasLead k (u ∷ us) found)) λ _.
      keep_bind _ _ (keep_if (any (is_member found) (u ∷ us)) _ _ keep_commit (keep_pure tt))
        λ _. keep_pure _
