-- ===== src/Security/Members.antt =====
-- The members of a project group: `fetch_project_group_users` of api/core/security.py, which reads
-- TDEI's list page by page. What TDEI answers for a page is an argument.
use Prim.Native.Nat.{zero, suc}
use workspaces_backend.Base.{
  ℕ, ◌+◌, ◌*◌, ◌≤◌, ◌<◌, ◌≡◌, refl, sym, ap, ◌∙◌, Bool, true, false, Bool-cases, inl, inr, ltb,
  if◌then◌else◌, List, [], ◌∷◌, ◌++◌, length, take, drop, take-all, take-drop, length-take,
  length-drop, drop-plus, product, no_product, Option, none, some, arith,
}
use workspaces_backend.Core.{Result, ok, err, http_exception}
use Prim.Native.String.{String}

-- A row of the answer; `user_id` is none where the key is missing or its value is empty.
pub record MemberRow : Type 0 where
  pub user_id : Option ℕ
  pub email : Option String
  pub username : Option String

-- What comes of one request: no connection, another status than 200, or a body.
pub data Reply : Type 0 where
  unreachable unauthorized not_json not_a_list : Reply
  failed : ℕ → Reply
  listing : List MemberRow → Reply

-- class TdeiProjectGroupUser
pub record TdeiProjectGroupUser : Type 0 where
  pub auth_uid : ℕ
  pub email : Option String
  pub display_name : Option String

-- `for row in page: …`
unfoldable pub users_of : List MemberRow → List TdeiProjectGroupUser
users_of [] = []
users_of (row ∷ rows) = elim row.user_id [
  | none ↦ users_of rows
  | some uid ↦
      (record { auth_uid = uid; email = row.email; display_name = row.username }) ∷ users_of rows
]

-- `page_size`
abbrev pub member_page_size : ℕ
member_page_size = 200

-- One turn of the loop: an error, or the rows of the page; a body that is no list ends the loop as
-- an empty one does.
unfoldable pub page_of : Reply → Result (List MemberRow)
page_of unreachable =
    err (http_exception 502 "Could not reach TDEI backend to fetch project group users")
page_of unauthorized = err (http_exception 401 "TDEI rejected the bearer token")
page_of (failed status) =
    err (http_exception 502 "TDEI returned {response.status_code} when listing users")
page_of not_json = err (http_exception 502 "TDEI returned a non-JSON body")
page_of not_a_list = ok []
page_of (listing rows) = ok rows

abbrev pub prepend :
    List TdeiProjectGroupUser
    → Option (Result (List TdeiProjectGroupUser))
    → Option (Result (List TdeiProjectGroupUser))
prepend out (some (ok rest)) = some (ok (out ++ rest))
prepend out (some (err e)) = some (err e)
prepend out none = none

abbrev pub is_empty_page : List MemberRow → Bool
is_empty_page [] = true
is_empty_page _ = false

-- What the loop does with a page, where `later` is what the following turns come to.
abbrev pub turn :
    Result (List MemberRow)
    → Option (Result (List TdeiProjectGroupUser))
    → Option (Result (List TdeiProjectGroupUser))
turn (err e) later = some (err e)
turn (ok rows) later =
    if is_empty_page rows
    then some (ok [])
    else if ltb (length rows) member_page_size
    then some (ok (users_of rows))
    else prepend (users_of rows) later

-- The loop from page `page_no` on, for at most `fuel` turns; none where that is too few.
unfoldable pub fetch_from : (ℕ → Reply) → ℕ → ℕ → Option (Result (List TdeiProjectGroupUser))
fetch_from get zero page_no = none
fetch_from get (suc fuel) page_no = turn (page_of (get page_no)) (fetch_from get fuel (page_no + 1))

unfoldable pub fetch_project_group_users :
    (ℕ → Reply) → ℕ → Option (Result (List TdeiProjectGroupUser))
fetch_project_group_users get fuel = fetch_from get fuel 1

users_of-append : (a b : List MemberRow) → users_of (a ++ b) ≡ users_of a ++ users_of b
unfolding users_of
users_of-append [] b = refl
users_of-append (row ∷ a) b = go row.user_id refl (users_of-append a b)
  where
    go :
        (o : Option ℕ)
        → row.user_id ≡ o
        → users_of (a ++ b) ≡ users_of a ++ users_of b
        → users_of ((row ∷ a) ++ b) ≡ users_of (row ∷ a) ++ users_of b
    go none e rest = rw (e, users_of) rest
    go (some uid) e rest =
        let user : TdeiProjectGroupUser = record {
          auth_uid = uid;
          email = row.email;
          display_name = row.username;
        } in
        rw (e, users_of) (ap (λ r. user ∷ r) rest)

less : (a b : ℕ) → ltb a b ≡ true → a < b
less a b h = ground (arith, h)

not_less : (a b : ℕ) → ltb a b ≡ false → b ≤ a
not_less a b h = ground (arith, h)

ltb-eq-true : (a b : ℕ) → a < b → ltb a b ≡ true
ltb-eq-true a b h = ground (arith, h)

ltb-eq-false : (a b : ℕ) → b ≤ a → ltb a b ≡ false
ltb-eq-false a b h = ground (arith, h)

-- A short page ends the loop.
last_page :
    (rest : List MemberRow) (later : Option (Result (List TdeiProjectGroupUser)))
    → length rest < 200
    → turn (ok rest) later ≡ some (ok (users_of rest))
unfolding users_of
last_page [] later h = refl
last_page (row ∷ rest) later h =
    let short : ltb (length (row ∷ rest)) 200 ≡ true = ltb-eq-true _ _ h in rw short refl

-- A full page is followed by the rest.
full_page :
    (rest : List MemberRow)
    → 200 ≤ length (take 200 rest)
    → turn (ok (take 200 rest)) (some (ok (users_of (drop 200 rest)))) ≡ some (ok (users_of rest))
full_page rest full = go (take 200 rest) refl full
  where
    go :
        (rows : List MemberRow)
        → take 200 rest ≡ rows
        → 200 ≤ length rows
        → turn (ok rows) (some (ok (users_of (drop 200 rest)))) ≡ some (ok (users_of rest))
    go [] e long = absurd (omega (arith, long))
    go (row ∷ rows) e long =
        let no_end : ltb (length (row ∷ rows)) 200 ≡ false = ltb-eq-false _ _ long in
        let whole : (row ∷ rows) ++ drop 200 rest ≡ rest =
          ap (λ r. r ++ drop 200 rest) (sym e) ∙ take-drop 200 rest in
        rw no_end (
          ap (λ (r : List TdeiProjectGroupUser). some (ok r))
            (sym (users_of-append (row ∷ rows) (drop 200 rest)) ∙ ap users_of whole))

-- TDEI serves the group in pages of 200 in a fixed order.
abbrev pub Serves : (ℕ → Reply) → List MemberRow → Type 0
Serves get all =
    (m : ℕ) → get (m + 1) ≡ listing (take member_page_size (drop (m * member_page_size) all))

module _ (get : ℕ → Reply) (all : List MemberRow) (serves : Serves get all) where
  fetch_from-rest :
      (fuel m : ℕ) (rest : List MemberRow)
      → drop (m * 200) all ≡ rest
      → length rest < fuel * 200
      → fetch_from get fuel (m + 1) ≡ some (ok (users_of rest))
  unfolding fetch_from page_of
  fetch_from-rest zero m rest at enough = absurd (omega (arith, enough))
  fetch_from-rest (suc fuel) m rest at enough =
      let later = fetch_from get fuel (m + 1 + 1) in
      let served : page_of (get (m + 1)) ≡ ok (take 200 rest) =
        ap page_of (serves m) ∙ ap (λ (r : List MemberRow). ok (take 200 r)) at in
      ap (λ r. turn r later) served ∙ elim (Bool-cases (ltb (length (take 200 rest)) 200)) [
        | inl short ↦
            let last : length rest < 200 = length-take 200 rest (less _ _ short) in
            let whole : take 200 rest ≡ rest = take-all 200 rest (omega (arith, last)) in
            ap (λ r. turn (ok r) later) whole ∙ last_page rest later last
        | inr long ↦
            let full : 200 ≤ length (take 200 rest) = not_less _ _ long in
            let next_at : drop ((m + 1) * 200) all ≡ drop 200 rest =
              ap (λ n. drop n all) (product m 200)
              ∙ drop-plus (m * 200) 200 all
              ∙ ap (drop 200) at in
            let fewer : length (drop 200 rest) < fuel * 200 =
              omega (arith, enough, length-drop 200 rest full) in
            ap (turn (ok (take 200 rest)))
              (fetch_from-rest fuel (m + 1) (drop 200 rest) next_at fewer)
            ∙ full_page rest full
      ]

  -- Reading a project group ends, and reads it whole: where TDEI serves the members in pages of 200,
  -- more than one turn for every 200 members is enough for the loop to come to an end, and the
  -- answer has each member that has an id, in TDEI's order.
  pub fetch_project_group_users-whole :
      (fuel : ℕ)
      → length all < fuel * 200
      → fetch_project_group_users get fuel ≡ some (ok (users_of all))
  unfolding fetch_project_group_users
  fetch_project_group_users-whole fuel enough =
      fetch_from-rest fuel 0 all (ap (λ n. drop n all) (no_product 200)) enough
