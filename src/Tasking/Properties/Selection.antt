-- ===== src/Tasking/Properties/Selection.antt =====
-- The rows that `list_tasks` of api/src/tasking/tasks/repository.py selects, and their order.
use workspaces_backend.Base.{
  ℕ, ◌≤◌, ◌≡◌, refl, sym, ap, ◌∙◌, Bool, true, false, ◌&&◌, ◌==◌, leb, Bool-cases, inl, inr, Option,
  none, some, List, [], ◌∷◌, ◌++◌, filter, All, All-map, holds, arith,
}
use workspaces_backend.Tasking.Schema.{TaskingTask, TaskStatus, status_eq, Uuid}
use workspaces_backend.Tasking.Dtos.{TaskLockSummary}
use workspaces_backend.Tasking.Tasks.Listing.{
  TaskFilter, is_listed, is_mapped_by, has_status, is_locked_by, insert_by_number, order_by_number,
}

-- A parameter that is not given asks for nothing.
abbrev pub asked : {A : Type 0} → Option A → (A → Bool) → Bool
asked none p = true
asked (some a) p = p a

-- A task of the project, with the status and the last mapper that are asked for.
abbrev pub matches : ℕ → TaskFilter → TaskingTask → Bool
matches i f t =
    t.project_id == i
    && asked f.status_filter (status_eq t.status)
    && asked f.last_mapper_id (holds t.last_mapper_id)

abbrev pub holder : Option TaskLockSummary → Option Uuid
holder none = none
holder (some l) = some l.user_id

abbrev pub Ordered : List TaskingTask → Type 0
Ordered [] = Unit
Ordered (t ∷ ts) = All (λ (u : TaskingTask). t.task_number ≤ u.task_number) ts × Ordered ts

All-insert :
    (k : ℕ) (t : TaskingTask) (ts : List TaskingTask)
    → k ≤ t.task_number
    → All (λ (u : TaskingTask). k ≤ u.task_number) ts
    → All (λ (u : TaskingTask). k ≤ u.task_number) (insert_by_number t ts)
All-insert k t [] h a = (h, tt)
All-insert k t (u ∷ us) h a = elim (Bool-cases (leb t.task_number u.task_number)) [
  | inl e ↦ rw e (h, a)
  | inr e ↦ rw e (a.0, All-insert k t us h a.1)
]

insert-Ordered :
    (t : TaskingTask) (ts : List TaskingTask) → Ordered ts → Ordered (insert_by_number t ts)
insert-Ordered t [] o = (tt, tt)
insert-Ordered t (u ∷ us) o = elim (Bool-cases (leb t.task_number u.task_number)) [
  | inl e ↦
      let below : t.task_number ≤ u.task_number = ground (arith, e) in
      rw e (
        (
          below,
          All-map (λ (v : TaskingTask). u.task_number ≤ v.task_number)
              (λ (v : TaskingTask). t.task_number ≤ v.task_number) (λ v h. omega (arith, below, h))
              us o.0,
        ),
        o,
      )
  | inr e ↦ rw e (All-insert u.task_number t us (ground (arith, e)) o.0, insert-Ordered t us o.1)
]

pub order-Ordered : (ts : List TaskingTask) → Ordered (order_by_number ts)
order-Ordered [] = tt
order-Ordered (t ∷ ts) = insert-Ordered t (order_by_number ts) (order-Ordered ts)

abbrev pub has_number : ℕ → TaskingTask → Bool
has_number n t = t.task_number == n

-- The order of the rows of one number does not change.
filter-insert :
    (n : ℕ) (t : TaskingTask) (ts : List TaskingTask)
    → filter (has_number n) (insert_by_number t ts) ≡ filter (has_number n) (t ∷ ts)
filter-insert n t [] = refl
filter-insert n t (u ∷ us) = ground (arith, filter-insert n t us)

pub filter-order :
    (n : ℕ) (ts : List TaskingTask)
    → filter (has_number n) (order_by_number ts) ≡ filter (has_number n) ts
filter-order n [] = refl
filter-order n (t ∷ ts) = filter-insert n t (order_by_number ts) ∙ ground (arith, filter-order n ts)

is_mapped_by-asked :
    (asked_for mapper : Option Uuid)
    → is_mapped_by asked_for mapper ≡ asked asked_for (holds mapper)
is_mapped_by-asked none mapper = refl
is_mapped_by-asked (some u) none = refl
is_mapped_by-asked (some u) (some v) = refl

has_status-asked :
    (asked_for : Option TaskStatus) (t : TaskingTask)
    → has_status asked_for t ≡ asked asked_for (status_eq t.status)
has_status-asked none t = refl
has_status-asked (some st) t = refl

is_listed-matches : (i : ℕ) (f : TaskFilter) (t : TaskingTask) → is_listed i f t ≡ matches i f t
is_listed-matches i f t =
    rw (is_mapped_by-asked f.last_mapper_id t.last_mapper_id, has_status-asked f.status_filter t)
      refl

pub is_locked_by-asked :
    (asked_for : Option Uuid) (l : Option TaskLockSummary)
    → is_locked_by asked_for l ≡ asked asked_for (holds (holder l))
is_locked_by-asked none l = refl
is_locked_by-asked (some u) none = refl
is_locked_by-asked (some u) (some l) = refl

pub filter-matches :
    (i : ℕ) (f : TaskFilter) (n : ℕ) (ts : List TaskingTask)
    → filter (has_number n) (filter (is_listed i f) ts)
      ≡ filter (λ t. has_number n t && matches i f t) ts
filter-matches i f n [] = refl
filter-matches i f n (t ∷ ts) = elim (Bool-cases (is_listed i f t)) [
  | inl e ↦
      let m : matches i f t ≡ true = sym (is_listed-matches i f t) ∙ e in
      elim (Bool-cases (has_number n t)) [
        | inl d ↦ rw (e, d, m) (ap (λ r. t ∷ r) (filter-matches i f n ts))
        | inr d ↦ rw (e, d) (filter-matches i f n ts)
      ]
  | inr e ↦
      let m : matches i f t ≡ false = sym (is_listed-matches i f t) ∙ e in
      elim (Bool-cases (has_number n t)) [
        | inl d ↦ rw (e, d, m) (filter-matches i f n ts)
        | inr d ↦ rw (e, d) (filter-matches i f n ts)
      ]
]

pub filter-same :
    {A : Type 0} (p q : A → Bool)
    → ((x : A) → p x ≡ q x)
    → (xs : List A) → filter p xs ≡ filter q xs
filter-same p q h [] = refl
filter-same p q h (x ∷ xs) = ground (arith, h x, filter-same p q h xs)

pub filter-append :
    {A : Type 0} (p : A → Bool) (xs ys : List A) → filter p (xs ++ ys) ≡ filter p xs ++ filter p ys
filter-append p [] ys = refl
filter-append p (x ∷ xs) ys = ground (arith, filter-append p xs ys)
