-- ===== src/Tasking/Projects/Provision.antt =====
-- Users that a role names: `_missing_user_auth_uids` and `_provision_users_from_tdei` of
-- api/src/tasking/projects/repository.py. What TDEI answers is an argument.
pub use workspaces_backend.Security.Members.{TdeiProjectGroupUser}
use workspaces_backend.Base.{
  Bool, true, false, not, List, [], ◌∷◌, ◌++◌, Option, none, some, any, filter, ◌==◌, if◌then◌else◌,
}
use workspaces_backend.Core.{Result, Action, ◌>>=◌, ◌>>◌, pure, query, execute, commit}
use workspaces_backend.Tasking.Schema.{Db, User, Uuid}

-- What `fetch_project_group_users` returns or raises.
abbrev pub Members : Type 0
Members = Result (List TdeiProjectGroupUser)

abbrev pub is_user : Uuid → User → Bool
is_user uid u = u.auth_uid == uid

unfoldable pub missing_user_auth_uids : List Uuid → Db → List Uuid
missing_user_auth_uids uids db = filter (λ uid. not (any (is_user uid) db.users)) uids

-- `by_uid = {m.auth_uid: m for m in members}`, then `by_uid.get(uid)`: the last one wins
unfoldable pub member_of : Uuid → List TdeiProjectGroupUser → Option TdeiProjectGroupUser
member_of uid [] = none
member_of uid (m ∷ ms) = elim (member_of uid ms) [
  | some n ↦ some n
  | none ↦ if m.auth_uid == uid then some m else none
]

-- `INSERT INTO users … ON CONFLICT (auth_uid) DO NOTHING`
unfoldable pub insert_user : TdeiProjectGroupUser → Db → Db
insert_user m db = record db {
  users =
      if any (is_user m.auth_uid) db.users
      then db.users
      else db.users
        ++ (record { auth_uid = m.auth_uid; email = m.email; display_name = m.display_name }) ∷ [];
}

-- the loop over `missing_uuids`
unfoldable pub insert_members : List Uuid → List TdeiProjectGroupUser → Db → Db
insert_members [] members db = db
insert_members (uid ∷ uids) members db =
    insert_members uids members
      (elim (member_of uid members) [ none ↦ db | some m ↦ insert_user m db ])

abbrev pub is_member : List TdeiProjectGroupUser → Uuid → Bool
is_member members uid = elim (member_of uid members) [ none ↦ false | some _ ↦ true ]

-- `[u for u in missing_uuids if u not in resolved]`; `if resolved: commit`
unfoldable pub provision_users_from_tdei : Members → List Uuid → Action Db (List Uuid)
provision_users_from_tdei fetched missing = do
  members ← query (λ _. fetched)
  execute (insert_members missing members)
  if any (is_member members) missing then commit else pure tt
  pure (filter (λ uid. not (is_member members uid)) missing)
