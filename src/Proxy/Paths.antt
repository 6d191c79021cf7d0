-- ===== src/Proxy/Paths.antt =====
-- The path patterns of api/main.py. A path is its code points; `re` runs over them. `$` also matches
-- before a final newline, and `.` matches no newline.
use workspaces_backend.Base.{
  ℕ, ◌+◌, ◌*◌, Bool, true, false, not, ◌&&◌, ◌==◌, if◌then◌else◌, List, [], ◌∷◌, Option, none, some,
  is_blank,
}
use workspaces_backend.Security.Credentials.{decimal}
use workspaces_backend.Proxy.Text.{codes}

-- What follows a literal, if the text begins with it.
unfoldable pub after_literal : List ℕ → List ℕ → Option (List ℕ)
after_literal [] s = some s
after_literal (p ∷ ps) [] = none
after_literal (p ∷ ps) (c ∷ s) = if c == p then after_literal ps s else none

-- `path.startswith(…)`
abbrev pub begins : List ℕ → List ℕ → Bool
begins p s = elim (after_literal p s) [ none ↦ false | some _ ↦ true ]

abbrev pub cons_some : ℕ → Option (List ℕ) → Option (List ℕ)
cons_some c none = none
cons_some c (some s) = some (c ∷ s)

-- `.*$`, as what `.*` matches
unfoldable pub line : List ℕ → Option (List ℕ)
line [] = some []
line (c ∷ s) = if c == 10 then (if is_blank s then some [] else none) else cons_some c (line s)

abbrev pub slashed : Option (List ℕ) → Option (List ℕ)
slashed none = none
slashed (some s) = some (47 ∷ s)

abbrev pub with_number : ℕ → Option (List ℕ) → Option (ℕ × List ℕ)
with_number value none = none
with_number value (some rest) = some (value, rest)

module _ (others : ℕ → Option ℕ) where
  -- `(\d+)(/.*)$` behind digits that were read
  unfoldable pub prefix_tail : ℕ → List ℕ → Option (ℕ × List ℕ)
  prefix_tail value [] = none
  prefix_tail value (c ∷ s) = elim (decimal others c) [
    | some d ↦ prefix_tail (10 * value + d) s
    | none ↦ if c == 47 then with_number value (slashed (line s)) else none
  ]

  unfoldable pub prefix_digits : List ℕ → Option (ℕ × List ℕ)
  prefix_digits [] = none
  prefix_digits (c ∷ s) = elim (decimal others c) [ some d ↦ prefix_tail d s | none ↦ none ]

  -- `_WORKSPACE_PREFIX_RE.match(path)`, as the two groups
  unfoldable pub workspace_prefix : List ℕ → Option (ℕ × List ℕ)
  workspace_prefix path = elim (after_literal (codes "/workspace/") path) [
    | none ↦ none
    | some rest ↦ prefix_digits rest
  ]

  -- `(\d+)` up to the end, behind digits that were read
  unfoldable pub number_tail : ℕ → List ℕ → Option ℕ
  number_tail value [] = some value
  number_tail value (c ∷ s) = elim (decimal others c) [
    | some d ↦ number_tail (10 * value + d) s
    | none ↦ none
  ]

  unfoldable pub whole_number : List ℕ → Option ℕ
  whole_number [] = none
  whole_number (c ∷ s) = elim (decimal others c) [ some d ↦ number_tail d s | none ↦ none ]

  -- `_WORKSPACE_SCHEMA_RE.fullmatch(path)`, as its group
  unfoldable pub workspace_schema : List ℕ → Option ℕ
  workspace_schema path = elim (after_literal (codes "/api/0.6/workspaces/") path) [
    | none ↦ none
    | some rest ↦ whole_number rest
  ]

abbrev pub slash_free : List ℕ → Bool
slash_free [] = true
slash_free (c ∷ s) = not (c == 47) && slash_free s

-- `^/api/0\.6/user/([^/]+)$`, as its group
unfoldable pub user_path : List ℕ → Option (List ℕ)
user_path path = elim (after_literal (codes "/api/0.6/user/") path) [
  | none ↦ none
  | some rest ↦ if slash_free rest && not (is_blank rest) then some rest else none
]
