-- ===== src/Security/Tokens/Keeping.antt =====
-- Steps of `validate_token` that keep what holds of the OSM database and of the cache on their own.
use Prim.Native.String.{String}
use workspaces_backend.Base.{
  ℕ, Bool, true, false, Option, none, some, Dict, if◌then◌else◌, update_where,
}
use workspaces_backend.Core.{
  Action, Keeps, keep_bind, keep_pure, keep_query, keep_raise_if, keep_execute, Both, Result, ok,
  err, Session, pure,
}
use workspaces_backend.Security.UserInfo.{UserInfo}
use workspaces_backend.Tasking.Schema.{Uuid, Datetime}
use workspaces_backend.Security.Tokens.State.{
  Auth, OauthDb, BridgeSettings, on_oauth, commit_oauth, in_process, swallowing, swallowed,
}
use workspaces_backend.Security.Tokens.Bridge.{
  insert_user_if, ensure_osm_user, new_user, new_application, insert_application_if, application_of,
  ensure_osm_oauth_application, mirrored, upsert_token, expires_in_of, TokenInfo, mirror_for,
  mirror_with, mirror_token, bridge_token_to_osm, is_live, revoke, revoke_osm_token,
}

abbrev pub Apart : (OauthDb → Type 0) → (Dict UserInfo → Type 0) → Auth → Type 0
Apart Q R a = Q a.osm × R a.user_info_cache

module _ (Q : OauthDb → Type 0) (R : Dict UserInfo → Type 0) where
  pub keep_on_oauth :
      (f : OauthDb → OauthDb)
      → ((db : OauthDb) → Q db → Q (f db))
      → (a : Auth) → Apart Q R a
      → Apart Q R (on_oauth f a)
  keep_on_oauth f h a (q, r) = (h a.osm q, r)

  pub keep_commit_oauth : Keeps (Apart Q R) commit_oauth
  unfolding commit_oauth
  keep_commit_oauth = record { keeps = λ s v c. record { at = (v, (v.0, c.1)) } }

  pub keep_in_process :
      (f : Auth → Auth)
      → ((a : Auth) → Apart Q R a → Apart Q R (f a))
      → Keeps (Apart Q R) (in_process f)
  unfolding in_process
  keep_in_process f h = record { keeps = λ s v c. record { at = (h s.working v, h s.committed c) } }

  pub keep_swallowing :
      (m : Action Auth (Unit {0})) → Keeps (Apart Q R) m → Keeps (Apart Q R) (swallowing m)
  unfolding swallowing
  keep_swallowing m h = record { keeps = λ s v c. record { at = go (m s) ((h.keeps s v c).at) } }
    where
      go :
          (r : Result (Unit {0}) × Session Auth)
          → Both (Apart Q R) r
          → Both (Apart Q R) (swallowed r)
      go (ok a, t) q = q
      go (err e, t) ((_, r), c) = ((c.0, r), c)

-- What of the OSM database the bridge of a token keeps.
pub record Bridged (cfg : BridgeSettings) (now : Datetime) (t : TokenInfo) (Q : OauthDb → Type 0)
    : Type 0 where
  pub user : (u : Uuid) (e : Option ℕ) (n : String) (db : OauthDb) → Q db → Q (new_user u e n db)
  pub application : (o : ℕ) (db : OauthDb) → Q db → Q (new_application cfg o db)
  pub token :
      (app_id user_id : ℕ) (db : OauthDb)
      → Q db
      → Q (record db {
        access_tokens =
            upsert_token
              (mirrored now app_id user_id t.token cfg.scopes (expires_in_of now t.exp))
              db.access_tokens;
      })

module _ {cfg : BridgeSettings} {now : Datetime} {t : TokenInfo} (Q : OauthDb → Type 0)
    (R : Dict UserInfo → Type 0) (b : Bridged cfg now t Q) where
  keep_insert_user_if :
      (known : Bool) (u : Uuid) (e : Option ℕ) (n : String)
      → Keeps (Apart Q R) (insert_user_if known u e n)
  unfolding insert_user_if
  keep_insert_user_if true u e n = keep_pure tt
  keep_insert_user_if false u e n = keep_bind _ _ (keep_query _) (λ taken.
      keep_bind _ _ (keep_raise_if _ _) (λ _. keep_execute _ (keep_on_oauth Q R _ (b.user u e n))))

  keep_ensure_osm_user :
      (u : Uuid) (e : Option ℕ) (n : String) → Keeps (Apart Q R) (ensure_osm_user u e n)
  unfolding ensure_osm_user
  keep_ensure_osm_user u e n =
      keep_bind _ _ (keep_query _)
        (λ known. keep_bind _ _ (keep_insert_user_if known u e n) (λ _. keep_query _))

  keep_insert_application_if :
      (known : Bool) (o : ℕ) (db : OauthDb) → Q db → Q (insert_application_if known cfg o db)
  unfolding insert_application_if
  keep_insert_application_if true o db q = q
  keep_insert_application_if false o db q = b.application o db q

  keep_application_of : (o : Option ℕ) → Keeps (Apart Q R) (application_of cfg o)
  unfolding application_of
  keep_application_of none = keep_pure none
  keep_application_of (some o) = keep_bind _ _ (keep_query _) (λ known.
      keep_bind _ _ (keep_execute _ (keep_on_oauth Q R _ (keep_insert_application_if known o)))
        (λ _. keep_query _))

  keep_mirror_for :
      (app_id : ℕ) (user_id : Option ℕ) → Keeps (Apart Q R) (mirror_for cfg now t app_id user_id)
  unfolding mirror_for
  keep_mirror_for app_id none = keep_pure tt
  keep_mirror_for app_id (some user_id) =
      keep_bind _ _ (keep_execute _ (keep_on_oauth Q R _ (b.token app_id user_id)))
        (λ _. keep_commit_oauth Q R)

  keep_mirror_with : (app_id : Option ℕ) → Keeps (Apart Q R) (mirror_with cfg now t app_id)
  unfolding mirror_with
  keep_mirror_with none = keep_pure tt
  keep_mirror_with (some app_id) =
      keep_bind _ _ (keep_ensure_osm_user t.user_uuid t.email t.user_name) (keep_mirror_for app_id)

  keep_mirror_token : Keeps (Apart Q R) (mirror_token cfg now t)
  unfolding mirror_token ensure_osm_oauth_application
  keep_mirror_token =
      keep_bind _ _ (keep_bind _ _ (keep_ensure_osm_user _ _ _) keep_application_of)
        keep_mirror_with

  pub keep_bridge_token_to_osm : Keeps (Apart Q R) (bridge_token_to_osm cfg now t)
  unfolding bridge_token_to_osm
  keep_bridge_token_to_osm = go cfg.enabled
    where
      go :
          (on : Bool)
          → Keeps (Apart Q R) (if on then swallowing (mirror_token cfg now t) else pure tt)
      go true = keep_swallowing Q R _ keep_mirror_token
      go false = keep_pure tt

module _ (cfg : BridgeSettings) (now : Datetime) (done : Result (Unit {0})) (token : ℕ)
    (Q : OauthDb → Type 0) (R : Dict UserInfo → Type 0)
    (h : (db : OauthDb)
      → Q db
      → Q (record db {
        access_tokens =
            update_where (is_live token) (λ t. record t { revoked_at = some now }) db.access_tokens;
      })) where
  keep_revoke : Keeps (Apart Q R) (revoke now done token)
  unfolding revoke
  keep_revoke =
      keep_bind _ _ (keep_execute _ (keep_on_oauth Q R _ h))
        (λ _. keep_bind _ _ (keep_query _) (λ _. keep_commit_oauth Q R))

  pub keep_revoke_osm_token : Keeps (Apart Q R) (revoke_osm_token cfg now done token)
  unfolding revoke_osm_token
  keep_revoke_osm_token = go cfg.enabled
    where
      go :
          (on : Bool)
          → Keeps (Apart Q R) (if on then swallowing (revoke now done token) else pure tt)
      go true = keep_swallowing Q R _ keep_revoke
      go false = keep_pure tt
