-- ===== src/Security/Tokens/Bridge.antt =====
-- The bridge of a validated token to osm-rails: `_ensure_osm_user`, `_ensure_osm_oauth_application`,
-- `_bridge_token_to_osm` and `_revoke_osm_token` of api/core/security.py.
use Prim.Native.String.{String}
use workspaces_backend.Base.{
  ℕ, ◌+◌, ◌-◌, Bool, true, false, not, ◌&&◌, ◌==◌, if◌then◌else◌, List, [], ◌∷◌, ◌++◌, Option, none,
  some, filter, any, update_where, is_some,
}
use workspaces_backend.Core.{
  Result, ok, Action, ◌>>=◌, ◌>>◌, pure, query, raise_if, execute, integrity_error,
}
use workspaces_backend.Tasking.Schema.{Uuid, Datetime}
use workspaces_backend.Security.Tokens.State.{
  Email, given, invalid_of, OauthUser, OauthApplication, AccessToken, OauthDb, Auth, BridgeSettings,
  on_oauth, commit_oauth, swallowing,
}

abbrev pub email_eq : Email → Email → Bool
email_eq (given a) (given b) = a == b
email_eq (invalid_of u) (invalid_of v) = u == v
email_eq (given a) (invalid_of v) = false
email_eq (invalid_of u) (given b) = false

-- `email or f"{auth_uid}@tdei.invalid"`
abbrev pub address : Uuid → Option ℕ → Email
address auth_uid none = invalid_of auth_uid
address auth_uid (some e) = given e

abbrev pub is_tdei_user : Uuid → OauthUser → Bool
is_tdei_user auth_uid u = u.from_tdei && u.auth_uid == auth_uid

-- `.first()` and its first column
abbrev pub first_id : List OauthUser → Option ℕ
first_id [] = none
first_id (u ∷ _) = some u.id

abbrev pub first_application : List OauthApplication → Option ℕ
first_application [] = none
first_application (a ∷ _) = some a.id

abbrev pub new_user : Uuid → Option ℕ → String → OauthDb → OauthDb
new_user auth_uid email display_name db = record db {
  users =
      db.users
      ++ (record {
        id = db.next_user_id;
        auth_uid = auth_uid;
        email = address auth_uid email;
        display_name = display_name;
        from_tdei = true;
      })
        ∷ [];
  next_user_id = db.next_user_id + 1;
}

-- INSERT … ON CONFLICT (auth_uid) DO NOTHING; the address is unique too.
unfoldable pub insert_user_if : Bool → Uuid → Option ℕ → String → Action Auth (Unit {0})
insert_user_if true auth_uid email display_name = pure tt
insert_user_if false auth_uid email display_name = do
  taken ← query (λ a. ok (any (λ u. email_eq u.email (address auth_uid email)) a.osm.users))
  raise_if taken (integrity_error "users_email_idx")
  execute (on_oauth (new_user auth_uid email display_name))

-- `_ensure_osm_user`
unfoldable pub ensure_osm_user : Uuid → Option ℕ → String → Action Auth (Option ℕ)
ensure_osm_user auth_uid email display_name = do
  known ← query (λ a. ok (any (λ u. u.auth_uid == auth_uid) a.osm.users))
  insert_user_if known auth_uid email display_name
  query (λ a. ok (first_id (filter (is_tdei_user auth_uid) a.osm.users)))

abbrev is_application : ℕ → OauthApplication → Bool
is_application uid a = a.uid == uid

abbrev pub new_application : BridgeSettings → ℕ → OauthDb → OauthDb
new_application cfg owner_id db = record db {
  applications =
      db.applications
      ++ (record {
        id = db.next_application_id;
        owner_id = owner_id;
        uid = cfg.client_uid;
        scopes = cfg.scopes;
      })
        ∷ [];
  next_application_id = db.next_application_id + 1;
}

unfoldable pub insert_application_if : Bool → BridgeSettings → ℕ → OauthDb → OauthDb
insert_application_if true cfg owner_id db = db
insert_application_if false cfg owner_id db = new_application cfg owner_id db

-- the rest of `_ensure_osm_oauth_application`, once the owner was looked up
unfoldable pub application_of : BridgeSettings → Option ℕ → Action Auth (Option ℕ)
application_of cfg none = pure none
application_of cfg (some owner_id) = do
  known ← query (λ a. ok (any (is_application cfg.client_uid) a.osm.applications))
  execute (on_oauth (insert_application_if known cfg owner_id))
  query (λ a. ok (first_application (filter (is_application cfg.client_uid) a.osm.applications)))

unfoldable pub ensure_osm_oauth_application : BridgeSettings → Action Auth (Option ℕ)
ensure_osm_oauth_application cfg = do
  owner_id ←
      ensure_osm_user cfg.system_user_auth_uid cfg.system_user_email cfg.system_user_display_name
  application_of cfg owner_id

-- `max(0, exp - int(time.time())) if exp else None`
abbrev pub expires_in_of : Datetime → Option ℕ → Option ℕ
expires_in_of now none = none
expires_in_of now (some exp) = if exp == 0 then none else some (exp - now)

abbrev pub is_token : ℕ → AccessToken → Bool
is_token token t = t.token == token

abbrev pub mirrored : Datetime → ℕ → ℕ → ℕ → ℕ → Option ℕ → AccessToken
mirrored now application_id user_id token scopes expires_in = record {
  application_id = application_id;
  resource_owner_id = user_id;
  token = token;
  scopes = scopes;
  created_at = now;
  expires_in = expires_in;
  revoked_at = none;
}

-- INSERT … ON CONFLICT (token) DO UPDATE, which keeps the application of an old row
unfoldable pub upsert_token : AccessToken → List AccessToken → List AccessToken
upsert_token row rows =
    if any (is_token row.token) rows
    then update_where (is_token row.token)
        (λ old. record row { application_id = old.application_id }) rows
    else rows ++ row ∷ []

-- The token that is mirrored.
pub record TokenInfo : Type 0 where
  pub user_uuid : Uuid
  pub user_name : String
  pub email : Option ℕ
  pub token : ℕ
  pub exp : Option ℕ

unfoldable pub mirror_for :
    BridgeSettings → Datetime → TokenInfo → ℕ → Option ℕ → Action Auth (Unit {0})
mirror_for cfg now t app_id none = pure tt
mirror_for cfg now t app_id (some user_id) = do
  execute (
      on_oauth (λ db. record db {
        access_tokens =
            upsert_token (mirrored now app_id user_id t.token cfg.scopes (expires_in_of now t.exp))
              db.access_tokens;
      }))
  commit_oauth

unfoldable pub mirror_with :
    BridgeSettings → Datetime → TokenInfo → Option ℕ → Action Auth (Unit {0})
mirror_with cfg now t none = pure tt
mirror_with cfg now t (some app_id) = do
  user_id ← ensure_osm_user t.user_uuid t.email t.user_name
  mirror_for cfg now t app_id user_id

-- the body of the `try`
unfoldable pub mirror_token : BridgeSettings → Datetime → TokenInfo → Action Auth (Unit {0})
mirror_token cfg now t = do app_id ← ensure_osm_oauth_application cfg; mirror_with cfg now t app_id

-- `_bridge_token_to_osm`
unfoldable pub bridge_token_to_osm : BridgeSettings → Datetime → TokenInfo → Action Auth (Unit {0})
bridge_token_to_osm cfg now t = if cfg.enabled then swallowing (mirror_token cfg now t) else pure tt

-- `token = :token AND revoked_at IS NULL`
abbrev pub is_live : ℕ → AccessToken → Bool
is_live token t = is_token token t && not (is_some t.revoked_at)

-- `done` is what the database makes of the UPDATE and its commit: an exception, or nothing.
unfoldable pub revoke : Datetime → Result (Unit {0}) → ℕ → Action Auth (Unit {0})
revoke now done token = do
  execute (
      on_oauth (λ db. record db {
        access_tokens =
            update_where (is_live token) (λ t. record t { revoked_at = some now }) db.access_tokens;
      }))
  query (λ _. done)
  commit_oauth

-- `_revoke_osm_token`
unfoldable pub revoke_osm_token :
    BridgeSettings → Datetime → Result (Unit {0}) → ℕ → Action Auth (Unit {0})
revoke_osm_token cfg now done token =
    if cfg.enabled then swallowing (revoke now done token) else pure tt
