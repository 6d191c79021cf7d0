-- ===== src/Examples/Tokens.antt =====
-- Refused tokens, Basic credentials and the members of a group.
use workspaces_backend.Base.{
  take, drop, ap, ◌+◌, ◌-◌, ◌*◌, ℕ, ◌≡◌, ◌≤◌, refl, true, false, List, [], ◌∷◌, ◌++◌, Option, none,
  some, length, arith, inr, Dict,
}
use workspaces_backend.Core.{ok}
use workspaces_backend.Security.Members.{
  MemberRow, Reply, listing, users_of, Serves, fetch_project_group_users,
  fetch_project_group_users-whole,
}
use workspaces_backend.Security.Rejections.{
  Entry, log_rejected_token, log_rejected_token-bounded, refuse_all, refuse_all-counts,
}
use workspaces_backend.Security.Credentials.{
  token_from_basic, authorize, is_basic, bearer_only, token_from_parts, basic_workspace, digits,
  digits_to_end,
}
use workspaces_backend.Security.Placement.{token_from_basic-number, authorize-basic}

abbrev log : Dict Entry
log = (7, record { logged_at = 100; suppressed = 2 }) ∷ []

log_rejected_token-bounded_example : length (log_rejected_token 130 8 log).0 ≤ 1001
log_rejected_token-bounded_example = log_rejected_token-bounded 130 8 log (omega arith)

refuse_all-counts_example : (refuse_all 7 (101 ∷ 159 ∷ 160 ∷ []) log).1 ≡ none ∷ none ∷ some 4 ∷ []
refuse_all-counts_example =
    refuse_all-counts 7 (101 ∷ 159 ∷ []) 160 (record { logged_at = 100; suppressed = 2 }) log refl
      (omega arith, (omega arith, tt)) (omega arith)

abbrev ascii_only : ℕ → Option ℕ
ascii_only _ = none

-- `Workspace-2366:token`
abbrev word : List ℕ
word = 87 ∷ 111 ∷ 114 ∷ 107 ∷ 115 ∷ 112 ∷ 97 ∷ 99 ∷ 101 ∷ []

abbrev token : List ℕ
token = 116 ∷ 111 ∷ 107 ∷ 101 ∷ 110 ∷ []

token_from_basic-number_example :
    token_from_basic ascii_only (some (((word ++ 45 ∷ []) ++ 50 ∷ 51 ∷ 54 ∷ 54 ∷ []) ++ 58 ∷ token))
    ≡ ok (token, 2366)
token_from_basic-number_example =
    token_from_basic-number ascii_only (word ++ 45 ∷ []) 50 (51 ∷ 54 ∷ 54 ∷ []) 116
      (111 ∷ 107 ∷ 101 ∷ 110 ∷ []) (inr (word, 45 ∷ [], refl, refl, refl)) refl
      (refl, (refl, (refl, tt)))

-- `/api/0.6/map` and `Basic`
abbrev map_path : List ℕ
map_path = 47 ∷ 97 ∷ 112 ∷ 105 ∷ 47 ∷ 48 ∷ 46 ∷ 54 ∷ 47 ∷ 109 ∷ 97 ∷ 112 ∷ []

abbrev basic : List ℕ
basic = 66 ∷ 97 ∷ 115 ∷ 105 ∷ 99 ∷ []

-- `12:token`
abbrev plain : List ℕ
plain = 49 ∷ 50 ∷ 58 ∷ token

admitted :
    authorize ascii_only (ok none) map_path basic (some plain)
    ≡ ok (record { token = some token; basic_workspace_id = some 12 })
unfolding authorize token_from_basic token_from_parts basic_workspace digits digits_to_end
admitted = refl

authorize-basic_example :
    (is_basic basic ≡ true)
    × (bearer_only map_path ≡ false)
    × ((t : List ℕ) × (some token ≡ some t)
        × (token_from_basic ascii_only (some plain) ≡ ok (t, 12)))
authorize-basic_example =
    authorize-basic ascii_only (ok none) map_path basic (some plain) (some token) 12 admitted

-- A project group with two members, one of whom has no id.
abbrev group : List MemberRow
group =
    record { user_id = some 7; email = none; username = some "mary" }
    ∷ record { user_id = none; email = none; username = none }
    ∷ []

abbrev served_page : ℕ → Reply
served_page page_no = listing (take 200 (drop ((page_no - 1) * 200) group))

group_served : Serves served_page group
group_served m =
    let before : m + 1 - 1 ≡ m = omega arith in
    ap (λ n. listing (take 200 (drop (n * 200) group))) before

fetch_project_group_users-whole_example :
    fetch_project_group_users served_page 1 ≡ some (ok (users_of group))
fetch_project_group_users-whole_example =
    fetch_project_group_users-whole served_page group group_served 1 (omega arith)
