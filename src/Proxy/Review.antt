-- ===== src/Proxy/Review.antt =====
-- The review tag that `catch_all` of api/main.py adds to a new changeset. ElementTree's parser and
-- printer are arguments; an element has a tag, attributes, a text, a
-- tail behind it and children.
use workspaces_backend.Base.{ℕ, Bool, if◌then◌else◌, List, [], ◌∷◌, codes_eq}
use workspaces_backend.Proxy.Text.{codes}

mutual
  pub data Element : Type 0 where
    element : (tag : List ℕ) → List (List ℕ × List ℕ) → (text tail : List ℕ) → Elements → Element

  pub data Elements : Type 0 where
    nil : Elements
    cons : Element → Elements → Elements

-- `<tag k="review_requested" v="yes"/>`
abbrev pub review_tag : Element
review_tag =
    element (codes "tag") ((codes "k", codes "review_requested") ∷ (codes "v", codes "yes") ∷ []) []
      [] nil

abbrev pub append_child : Elements → Element → Elements
append_child nil child = cons child nil
append_child (cons x xs) child = cons x (append_child xs child)

abbrev pub is_changeset : Element → Bool
is_changeset (element tag attributes text tail children) = codes_eq tag (codes "changeset")

-- `ET.SubElement(changeset_el, "tag", k="review_requested", v="yes")`
abbrev pub tagged : Element → Element
tagged (element tag attributes text tail children) =
    element tag attributes text tail (append_child children review_tag)

-- the first child that `root.find("changeset")` finds
unfoldable pub flag_first : Elements → Elements
flag_first nil = nil
flag_first (cons x xs) = if is_changeset x then cons (tagged x) xs else cons x (flag_first xs)

unfoldable pub flag_review : Element → Element
flag_review (element tag attributes text tail children) =
    element tag attributes text tail (flag_first children)
