-- ===== src/Tasking/Properties/Leads.antt =====
-- The guard on the last LEAD of a project: the role endpoints of
-- api/src/tasking/projects/repository.py.
use workspaces_backend.Base.{
  ℕ, ◌≡◌, ◌≤◌, ◌+◌, Bool, true, false, List, [], ◌∷◌, arith, filter, length, All, update_where,
  delete_where, some, filter_single, length-filter-update_where, Bool-cases, ◌&&◌, not, inr,
  All-map, ap, inl, ◌==◌, leb, length-filter-delete_where,
}
use workspaces_backend.Tasking.Schema.{Db, Uuid, TaskingProjectRole, RoleType, is_lead}
use workspaces_backend.Tasking.Tasks.Queries.{is_role_of}
use workspaces_backend.Tasking.Projects.Roles.{
  lead_count, first, get_role_or_none, set_role, demotes_last_lead, is_lead_of, delete_role,
}

-- The primary key of the role table, and the LEAD that a project has.
pub record HasLead (k : ℕ) (db : Db) : Type 0 where
  pub unique_role : (i : ℕ) (u : Uuid) → length (filter (is_role_of i u) db.project_roles) ≤ 1
  pub some_lead : 1 ≤ lead_count k db

-- An update of rows that turns no counted row into another does not lower the count.
count-update_where {ℓ} :
    {A : Type ℓ} (c p : A → Bool) (f : A → A) (xs : List A)
    → All (λ x. p x ≡ true → c x ≡ true → c (f x) ≡ true) xs
    → length (filter c xs) ≤ length (filter c (update_where p f xs))
count-update_where c p f [] h = omega arith
count-update_where c p f (x ∷ xs) h = ground (arith, h.0, count-update_where c p f xs h.1)

-- Rows that are updated or deleted lower the count by at most their number.
count-update_where_near {ℓ} :
    {A : Type ℓ} (c p : A → Bool) (f : A → A) (xs : List A)
    → length (filter c xs) ≤ length (filter c (update_where p f xs)) + length (filter p xs)
count-update_where_near c p f [] = omega arith
count-update_where_near c p f (x ∷ xs) = ground (arith, count-update_where_near c p f xs)

count-delete_where {ℓ} :
    {A : Type ℓ} (c p : A → Bool) (xs : List A)
    → All (λ x. p x ≡ true → c x ≡ false) xs
    → length (filter c xs) ≤ length (filter c (delete_where p xs))
count-delete_where c p [] h = omega arith
count-delete_where c p (x ∷ xs) h = ground (arith, h.0, count-delete_where c p xs h.1)

count-delete_where_near {ℓ} :
    {A : Type ℓ} (c p : A → Bool) (xs : List A)
    → length (filter c xs) ≤ length (filter c (delete_where p xs)) + length (filter p xs)
count-delete_where_near c p [] = omega arith
count-delete_where_near c p (x ∷ xs) = ground (arith, count-delete_where_near c p xs)

-- At most one row satisfies the condition, and this is the first one.
single-first : {A : Type 0} (xs : List A) (x : A) → length xs ≤ 1 → first xs ≡ some x → xs ≡ x ∷ []
single-first [] x n h = absurd (cc h)
single-first (y ∷ []) x n h = cc h
single-first (y ∷ z ∷ r) x n h = absurd (omega (arith, n))

enough_leads :
    (old new : RoleType) (n : ℕ)
    → (is_lead old && not (is_lead new)) ≡ true
    → demotes_last_lead old new n ≡ false
    → 2 ≤ n
enough_leads old new n d h = ground (arith, d, h)

module _ (k i : ℕ) (u : Uuid) (db : Db) (v : HasLead k db) (current : TaskingProjectRole)
    (found : get_role_or_none i u db ≡ some current) where
  current_only : All (λ r. is_role_of i u r ≡ true → r ≡ current) db.project_roles
  unfolding get_role_or_none
  current_only =
      filter_single (is_role_of i u) db.project_roles current
        (single-first (filter (is_role_of i u) db.project_roles) current (v.unique_role i u) found)

  -- The guard has passed: the demotion is none, or another LEAD is left.
  pub set_role-HasLead :
      (role : RoleType) (now : ℕ)
      → demotes_last_lead current.role role (lead_count i db) ≡ false
      → HasLead k (set_role i u role now db)
  unfolding set_role lead_count
  set_role-HasLead role now guard = record {
    unique_role = λ j w. omega (
      arith,
      v.unique_role j w,
      length-filter-update_where (is_role_of j w) (is_role_of i u) change (λ r h. h)
          db.project_roles,
    );
    some_lead = elim (Bool-cases (is_lead current.role && not (is_lead role))) [
      | inr keeps ↦ omega (
        arith,
        v.some_lead,
        count-update_where (is_lead_of k) (is_role_of i u) change db.project_roles (
            All-map _ _
              (λ r only m c.
                ground (arith, keeps, ap (λ (x : TaskingProjectRole). is_lead x.role) (only m)))
              db.project_roles current_only),
      )
      | inl demotes ↦ elim (Bool-cases (k == i)) [
        | inl same ↦
            let same_project : k ≡ i = ground (arith, same) in
            let two : 2 ≤ length (filter (is_lead_of k) db.project_roles) =
              rw same_project (enough_leads current.role role _ demotes guard) in
            omega (
              arith,
              two,
              v.unique_role i u,
              count-update_where_near (is_lead_of k) (is_role_of i u) change db.project_roles,
            )
        | inr other ↦ omega (
          arith,
          v.some_lead,
          count-update_where (is_lead_of k) (is_role_of i u) change db.project_roles
              (All-map _ _ (λ r only m c. ground (arith, other)) db.project_roles current_only),
        )
      ]
    ];
  }
    where
      change : TaskingProjectRole → TaskingProjectRole
      change r = record r { role = role; updated_at = now }

  pub delete_role-HasLead :
      (is_lead current.role && leb (lead_count i db) 1) ≡ false → HasLead k (delete_role i u db)
  unfolding delete_role lead_count
  delete_role-HasLead guard = record {
    unique_role = λ j w. omega (
      arith,
      v.unique_role j w,
      length-filter-delete_where (is_role_of j w) (is_role_of i u) db.project_roles,
    );
    some_lead = elim (Bool-cases (is_lead current.role)) [
      | inr keeps ↦ omega (
        arith,
        v.some_lead,
        count-delete_where (is_lead_of k) (is_role_of i u) db.project_roles (
            All-map _ _
              (λ r only m.
                ground (arith, keeps, ap (λ (x : TaskingProjectRole). is_lead x.role) (only m)))
              db.project_roles current_only),
      )
      | inl leads ↦ elim (Bool-cases (k == i)) [
        | inl same ↦
            let same_project : k ≡ i = ground (arith, same) in
            let two : 2 ≤ length (filter (is_lead_of k) db.project_roles) =
              rw same_project (ground (arith, leads, guard)) in
            omega (
              arith,
              two,
              v.unique_role i u,
              count-delete_where_near (is_lead_of k) (is_role_of i u) db.project_roles,
            )
        | inr other ↦ omega (
          arith,
          v.some_lead,
          count-delete_where (is_lead_of k) (is_role_of i u) db.project_roles
              (All-map _ _ (λ r only m. ground (arith, other)) db.project_roles current_only),
        )
      ]
    ];
  }
