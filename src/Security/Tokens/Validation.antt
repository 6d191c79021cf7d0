-- ===== src/Security/Tokens/Validation.antt =====
-- `validate_token` of api/core/security.py. What the TTL cache of cachetools drops, by age or by
-- size, is a function that every access passes through; what PyJWT makes of the token is an argument.
use workspaces_backend.Base.{
  ℕ, Bool, true, false, ◌==◌, Option, none, some, Dict, lookup, insert, erase,
}
use workspaces_backend.Core.{Result, ok, Action, ◌>>=◌, ◌>>◌, pure, query, raise}
use workspaces_backend.Security.UserInfo.{UserInfo}
use workspaces_backend.Tasking.Schema.{Uuid, Datetime}
use workspaces_backend.Security.Tokens.State.{Auth, BridgeSettings, in_process}
use workspaces_backend.Security.Tokens.Bridge.{revoke_osm_token}
use workspaces_backend.Security.Tokens.Permissions.{
  Subject, absent, malformed, uuid, Payload, GroupsReply, credentials_exception, logged,
  validate_token_uncached,
}

-- What comes with the request and from outside.
pub record Call : Type 0 where
  pub token : ℕ
  pub key : ℕ
  pub monotonic : ℕ
  pub now : Datetime
  pub decoded : Option Payload
  pub reply : GroupsReply
  -- what the database makes of a revocation
  pub revocation : Result (Unit {0})

module _ (cfg : BridgeSettings) (expire : Dict UserInfo → Dict UserInfo) where
  abbrev pub stored : Uuid → UserInfo → Auth → Auth
  stored u user a = record a { user_info_cache = expire (insert u user a.user_info_cache) }

  abbrev pub forgotten : Uuid → Auth → Auth
  forgotten u a = record a { user_info_cache = erase u a.user_info_cache }

  -- the rest after a cache miss
  unfoldable pub validate_fresh : Call → Uuid → Payload → Action Auth UserInfo
  validate_fresh c u p = do
    user ← validate_token_uncached cfg c.monotonic c.now c.key c.reply u c.token p
    in_process (stored u user)
    pure user

  -- the cached entry, if its token id is the current one
  unfoldable pub validate_rotated : Call → Uuid → Payload → UserInfo → Bool → Action Auth UserInfo
  validate_rotated c u p cached true = pure cached
  validate_rotated c u p cached false = do
    revoke_osm_token cfg c.now c.revocation cached.credentials
    in_process (forgotten u)
    validate_fresh c u p

  unfoldable pub validate_cached : Call → Uuid → Payload → Option UserInfo → Action Auth UserInfo
  validate_cached c u p none = validate_fresh c u p
  validate_cached c u p (some cached) = validate_rotated c u p cached (cached.token_jti == p.jti)

  unfoldable pub validate_subject : Call → Payload → Subject → Action Auth UserInfo
  validate_subject c p absent = do
    in_process (logged c.monotonic c.key)
    raise credentials_exception
  validate_subject c p malformed = do
    in_process (logged c.monotonic c.key)
    raise credentials_exception
  validate_subject c p (uuid u) = do
    in_process (λ a. record a { user_info_cache = expire a.user_info_cache })
    cached ← query (λ a. ok (lookup u a.user_info_cache))
    validate_cached c u p cached

  unfoldable pub validate_decoded : Call → Option Payload → Action Auth UserInfo
  validate_decoded c none = do in_process (logged c.monotonic c.key); raise credentials_exception
  validate_decoded c (some p) = validate_subject c p p.sub

  -- `validate_token`
  unfoldable pub validate_token : Call → Action Auth UserInfo
  validate_token c = validate_decoded c c.decoded
