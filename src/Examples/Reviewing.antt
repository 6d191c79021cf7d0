-- ===== src/Examples/Reviewing.antt =====
-- A changeset of a contributor in a workspace that asks for reviews.
use workspaces_backend.Base.{ℕ, pos, ◌≡◌, ◌⊎◌, refl, true, List, [], ◌∷◌, none, some}
use workspaces_backend.Core.{ok}
use workspaces_backend.Security.UserInfo.{
  UserInfo, effective_role, is_workspace_lead, is_workspace_validator, leads_a_group,
  get_project_group_ids, member,
}
use workspaces_backend.Workspaces.Schema.{TaskDb, Workspace}
use workspaces_backend.Workspaces.Queries.{get_by_id}
use workspaces_backend.Proxy.Text.{codes}
use workspaces_backend.Proxy.Review.{Element, element, cons, nil, flag_review, flag_first}
use workspaces_backend.Proxy.Forward.{Python, ◌>>=◌, workspace_of, changeset_content}
use workspaces_backend.Proxy.Properties.Reviews.{Unchanged, Tagged, changeset_content-IsFlagged}
use workspaces_backend.Examples.Places.{petra, place, group}

abbrev connie : UserInfo
connie = record petra { project_groups = record group { tdei_roles = member ∷ [] } ∷ [] }

abbrev cautious : Workspace
cautious = record place { auto_flag_review = true }

abbrev tables : TaskDb
tables = record {
  workspaces = cautious ∷ [];
  long_quests = [];
  imagery = [];
  next_workspace_id = 2;
}

-- `<osm><changeset/></osm>`, and a printer that counts the children of the changeset.
abbrev tree : Element
tree = element (codes "osm") [] [] [] (cons (element (codes "changeset") [] [] [] nil) nil)

abbrev count : Element → List ℕ
count (element _ _ _ _ (cons (element _ _ _ _ (cons _ _)) _)) = 1 ∷ []
count _ = []

abbrev python : Python
python = record {
  others = λ _. none;
  float = λ _. none;
  uuid_text = λ _. [];
  token_text = λ _. [];
  fromstring = λ _. some tree;
  tostring = count;
}

flagged : changeset_content python none tables connie (pos 1) (codes "<osm/>") ≡ ok (1 ∷ [])
unfolding changeset_content get_by_id get_project_group_ids effective_role is_workspace_lead
    is_workspace_validator leads_a_group flag_review flag_first ◌>>=◌
flagged = refl

changeset_content-IsFlagged_example :
    (row : Workspace) × (workspace_of connie (pos 1) tables ≡ ok row)
    × (Unchanged python none tables connie (pos 1) (codes "<osm/>") (1 ∷ []) row
        ⊎ Tagged python none tables connie (pos 1) (codes "<osm/>") (1 ∷ []) row)
changeset_content-IsFlagged_example =
    changeset_content-IsFlagged python none tables connie (pos 1) (codes "<osm/>") (1 ∷ []) flagged
