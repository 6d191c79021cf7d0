-- ===== src/Tasking/Properties/Responses.antt =====
-- The responses to a list of tasks (api/src/tasking/tasks/repository.py), one for each.
use Prim.Native.Nat.{zero, suc}
use workspaces_backend.Base.{
  ℕ, ◌≤◌, ◌≡◌, refl, ap, subst, ◌∙◌, Bool, true, false, ◌==◌, Bool-cases, inl, inr, List, [], ◌∷◌,
  filter, take, drop, All,
}
use workspaces_backend.Core.{ok, Result-cases}
use workspaces_backend.Tasking.Schema.{Db, TaskingTask}
use workspaces_backend.Tasking.Dtos.{TaskResponse}
use workspaces_backend.Tasking.Geometry.{Shapely}
use workspaces_backend.Tasking.Tasks.Response.{to_task_response, to_task_response-number}
use workspaces_backend.Tasking.Tasks.Save.{task_responses}
use workspaces_backend.Tasking.Properties.Selection.{has_number, Ordered}

abbrev pub IsAscending : List TaskResponse → Type 0
IsAscending [] = Unit
IsAscending (r ∷ rs) = All (λ (s : TaskResponse). r.task_number ≤ s.task_number) rs × IsAscending rs

abbrev pub answers_number : ℕ → TaskResponse → Bool
answers_number n r = r.task_number == n

module _ (lib : Shapely) (db : Db) where
  -- What the responses of a list say of its parts.
  responses-cons :
      (P : List TaskResponse → Type 0) (t : TaskingTask) (ts : List TaskingTask)
      (rs : List TaskResponse)
      → task_responses lib (t ∷ ts) db ≡ ok rs
      → ((r : TaskResponse) (rest : List TaskResponse)
          → to_task_response lib t db ≡ ok r
          → task_responses lib ts db ≡ ok rest
          → P (r ∷ rest))
      → P rs
  unfolding task_responses
  responses-cons P t ts rs h then_ = elim (Result-cases (to_task_response lib t db)) [
    | inr (e, first) ↦ absurd (cc (rw (first, task_responses) at h))
    | inl (r, first) ↦ elim (Result-cases (task_responses lib ts db)) [
      | inr (e, rest) ↦ absurd (cc (rw (first, rest, task_responses) at h))
      | inl (others, rest) ↦
          let same : r ∷ others ≡ rs = cc (rw (first, rest, task_responses) at h) in
          subst P same (then_ r others first rest)
    ]
  ]

  responses-join :
      (t : TaskingTask) (ts : List TaskingTask) (r : TaskResponse) (rs : List TaskResponse)
      → to_task_response lib t db ≡ ok r
      → task_responses lib ts db ≡ ok rs
      → task_responses lib (t ∷ ts) db ≡ ok (r ∷ rs)
  unfolding task_responses
  responses-join t ts r rs h k = rw (h, k, task_responses) refl

  responses-nil : (rs : List TaskResponse) → task_responses lib [] db ≡ ok rs → rs ≡ []
  unfolding task_responses
  responses-nil rs h = cc h

  responses-none : task_responses lib [] db ≡ ok []
  unfolding task_responses
  responses-none = refl

  pub responses-filter :
      (n : ℕ) (ts : List TaskingTask) (rs : List TaskResponse)
      → task_responses lib ts db ≡ ok rs
      → task_responses lib (filter (has_number n) ts) db ≡ ok (filter (answers_number n) rs)
  responses-filter n [] rs h = rw (responses-nil rs h) responses-none
  responses-filter n (t ∷ ts) rs h =
      responses-cons
        (λ rs.
          task_responses lib (filter (has_number n) (t ∷ ts)) db
          ≡ ok (filter (answers_number n) rs))
        t ts rs h
        (λ r rest hr hs.
          let same = to_task_response-number lib t db r hr in
          elim (Bool-cases (t.task_number == n)) [
            | inl e ↦
                let too : (r.task_number == n) ≡ true = ap (λ k. k == n) same ∙ e in
                rw (too, e)
                  (responses-join t (filter (has_number n) ts) r _ hr
                    (responses-filter n ts rest hs))
            | inr e ↦
                let neither : (r.task_number == n) ≡ false = ap (λ k. k == n) same ∙ e in
                rw (neither, e) (responses-filter n ts rest hs)
          ])

  pub responses-take :
      (k : ℕ) (ts : List TaskingTask) (rs : List TaskResponse)
      → task_responses lib ts db ≡ ok rs
      → task_responses lib (take k ts) db ≡ ok (take k rs)
  responses-take zero ts rs h = responses-none
  responses-take (suc k) [] rs h = rw (responses-nil rs h) responses-none
  responses-take (suc k) (t ∷ ts) rs h =
      responses-cons (λ rs. task_responses lib (take (suc k) (t ∷ ts)) db ≡ ok (take (suc k) rs)) t
        ts rs h (λ r rest hr hs. responses-join t (take k ts) r _ hr (responses-take k ts rest hs))

  pub responses-drop :
      (k : ℕ) (ts : List TaskingTask) (rs : List TaskResponse)
      → task_responses lib ts db ≡ ok rs
      → task_responses lib (drop k ts) db ≡ ok (drop k rs)
  responses-drop zero ts rs h = h
  responses-drop (suc k) [] rs h = rw (responses-nil rs h) responses-none
  responses-drop (suc k) (t ∷ ts) rs h =
      responses-cons (λ rs. task_responses lib (drop k ts) db ≡ ok (drop (suc k) rs)) t ts rs h
        (λ r rest hr hs. responses-drop k ts rest hs)

  All-responses :
      (k : ℕ) (ts : List TaskingTask) (rs : List TaskResponse)
      → task_responses lib ts db ≡ ok rs
      → All (λ (u : TaskingTask). k ≤ u.task_number) ts
      → All (λ (s : TaskResponse). k ≤ s.task_number) rs
  All-responses k [] rs h a = rw (responses-nil rs h) tt
  All-responses k (t ∷ ts) rs h a =
      responses-cons (All (λ (s : TaskResponse). k ≤ s.task_number)) t ts rs h (λ r rest hr hs.
        (rw (to_task_response-number lib t db r hr) a.0, All-responses k ts rest hs a.1))

  pub responses-IsAscending :
      (ts : List TaskingTask) (rs : List TaskResponse)
      → task_responses lib ts db ≡ ok rs
      → Ordered ts
      → IsAscending rs
  responses-IsAscending [] rs h o = rw (responses-nil rs h) tt
  responses-IsAscending (t ∷ ts) rs h o = responses-cons IsAscending t ts rs h (λ r rest hr hs. (
    rw (to_task_response-number lib t db r hr) (All-responses t.task_number ts rest hs o.0),
    responses-IsAscending ts rest hs o.1,
  ))
