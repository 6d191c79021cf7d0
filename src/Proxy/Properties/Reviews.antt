-- ===== src/Proxy/Properties/Reviews.antt =====
-- The body of a new changeset that `catch_all` of api/main.py sends on.
use workspaces_backend.Base.{
  ℕ, ℤ, ◌≡◌, ◌⊎◌, refl, Bool, true, false, ◌&&◌, List, Option, some, Bool-cases, inl, inr,
  Option-cases,
}
use workspaces_backend.Core.{ok}
use workspaces_backend.Security.UserInfo.{UserInfo}
use workspaces_backend.Workspaces.Schema.{TaskDb, Workspace}
use workspaces_backend.Proxy.Review.{
  Element, element, Elements, nil, cons, is_changeset, flag_first, flag_review, review_tag,
  append_child,
}
use workspaces_backend.Proxy.Forward.{
  Python, workspace_of, role_at, is_contributor, changeset_content, reviewed,
}
use workspaces_backend.Proxy.Properties.Access.{bind-eq-ok}

-- The first changeset among the elements has one child more, the review tag, behind its others;
-- everything else is the same. Without a changeset nothing changes.
pub data FlaggedFirst : Elements → Elements → Type 0 where
  no_changeset : FlaggedFirst nil nil
  here :
      (tag : List ℕ) (attributes : List (List ℕ × List ℕ)) (text tail : List ℕ)
      (children xs : Elements)
      → is_changeset (element tag attributes text tail children) ≡ true
      → FlaggedFirst
          (cons (element tag attributes text tail children) xs)
          (cons (element tag attributes text tail (append_child children review_tag)) xs)
  later :
      (x : Element) (xs ys : Elements)
      → is_changeset x ≡ false
      → FlaggedFirst xs ys
      → FlaggedFirst (cons x xs) (cons x ys)

flag_first-FlaggedFirst : (xs : Elements) → FlaggedFirst xs (flag_first xs)
unfolding flag_first
flag_first-FlaggedFirst nil = no_changeset
flag_first-FlaggedFirst (cons (element tag attributes text tail children) xs) =
    elim (Bool-cases (is_changeset (element tag attributes text tail children))) [
      | inl e ↦ rw e (here tag attributes text tail children xs e)
      | inr e ↦ rw e (later _ xs _ e (flag_first-FlaggedFirst xs))
    ]

abbrev pub children_of : Element → Elements
children_of (element tag attributes text tail children) = children

-- The root keeps its own tag, attributes and texts.
abbrev pub with_children : Element → Elements → Element
with_children (element tag attributes text tail _) children =
    element tag attributes text tail children

abbrev pub IsReviewed : Element → Element → Type 0
IsReviewed root sent =
    (xs : Elements) × (sent ≡ with_children root xs) × FlaggedFirst (children_of root) xs

flag_review-IsReviewed : (root : Element) → IsReviewed root (flag_review root)
unfolding flag_review
flag_review-IsReviewed (element tag attributes text tail children) =
    (flag_first children, refl, flag_first-FlaggedFirst children)

-- The workspace asks for reviews, and the caller is neither LEAD nor validator there.
abbrev pub asks_review : Workspace → UserInfo → ℤ → Bool
asks_review row user w = row.auto_flag_review && is_contributor (role_at user w)

module _ (py : Python) (osm_host : Option (List ℕ)) (db : TaskDb) (user : UserInfo) (w : ℤ)
    (body content : List ℕ) where
  abbrev pub Unchanged : Workspace → Type 0
  Unchanged row = (asks_review row user w ≡ false) × (content ≡ body)

  abbrev pub Tagged : Workspace → Type 0
  Tagged row =
      (asks_review row user w ≡ true)
      × ((root sent : Element) × (py.fromstring body ≡ some root)
          × (content ≡ py.tostring sent)
          × IsReviewed root sent)

  reviewed-Tagged :
      (row : Workspace)
      → asks_review row user w ≡ true
      → reviewed py osm_host db body (py.fromstring body) ≡ ok content
      → Tagged row
  reviewed-Tagged row asks h = elim (Option-cases (py.fromstring body)) [
    | inl bad ↦ absurd (cc (rw bad at h))
    | inr (root, parsed) ↦
        let printed : py.tostring (flag_review root) ≡ content = cc (rw parsed at h) in
        (asks, (root, flag_review root, parsed, cc, flag_review-IsReviewed root))
  ]

  -- A changeset is flagged exactly where it has to be: where the body of a new changeset is sent on,
  -- the caller sees the workspace; it is sent as it came unless the workspace asks for reviews and
  -- the caller is a plain contributor there, and then its tree is sent with the review tag as one
  -- more child of its first changeset and no other change.
  pub changeset_content-IsFlagged :
      changeset_content py osm_host db user w body ≡ ok content
      → (row : Workspace) × (workspace_of user w db ≡ ok row) × (Unchanged row ⊎ Tagged row)
  unfolding changeset_content
  changeset_content-IsFlagged h =
      let (row, visible, h1) = bind-eq-ok _ _ h in
      (
        row,
        visible,
        elim (Bool-cases (asks_review row user w)) [
          | inl asks ↦ inr (reviewed-Tagged row asks (rw asks at h1))
          | inr quiet ↦ inl (quiet, let same : ok body ≡ ok content = rw quiet at h1 in cc)
        ],
      )
