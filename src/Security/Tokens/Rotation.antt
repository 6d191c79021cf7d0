-- ===== src/Security/Tokens/Rotation.antt =====
-- A rotated token: what `validate_token` of api/core/security.py does to the mirrored row of the old
-- one.
use workspaces_backend.Base.{
  ℕ, ◌≡◌, ◌≢◌, ◌∙◌, refl, true, false, not, ◌==◌, Option, some, is_some, Dict, lookup, List, [],
  ◌∷◌, ◌++◌, any, filter, update_where, arith, Bool-cases, inl, inr,
}
use workspaces_backend.Core.{
  Keeps, keep_bind, keep_pure, keep_query, Ends, run, Both, Result, ok, err, Session, bind_known,
  query, execute,
}
use workspaces_backend.Security.UserInfo.{UserInfo}
use workspaces_backend.Tasking.Schema.{Uuid, Datetime}
use workspaces_backend.Security.Tokens.State.{
  Auth, AccessToken, BridgeSettings, in_process, commit_oauth, swallowing, swallowed,
}
use workspaces_backend.Security.Tokens.Bridge.{
  revoke_osm_token, revoke, is_live, upsert_token, is_token,
}
use workspaces_backend.Security.Tokens.Permissions.{
  Subject, uuid, Payload, GroupsReply, no_client, unreachable, not_json, refused, groups,
  log_refusal, validate_token_uncached,
}
use workspaces_backend.Security.Tokens.Validation.{
  Call, validate_token, validate_decoded, validate_subject, validate_cached, validate_rotated,
  validate_fresh,
}
use workspaces_backend.Security.Tokens.Keeping.{Apart, keep_in_process, keep_bridge_token_to_osm}

-- What a revocation makes of the rows of its token: where the UPDATE and its commit go through, those
-- that had none get the time of revocation, and else nothing changes.
abbrev pub revoked_rows : Result (Unit {0}) → Datetime → List AccessToken → List AccessToken
revoked_rows (ok _) now rows =
    update_where (λ t. not (is_some t.revoked_at)) (λ t. record t { revoked_at = some now }) rows
revoked_rows (err _) now rows = rows

filter-update_where_live :
    (token : ℕ) (now : Datetime) (rows : List AccessToken)
    → filter
        (is_token token)
        (update_where (is_live token) (λ t. record t { revoked_at = some now }) rows)
      ≡ update_where
          (λ t. not (is_some t.revoked_at))
          (λ t. record t { revoked_at = some now })
          (filter (is_token token) rows)
filter-update_where_live token now [] = refl
filter-update_where_live token now (r ∷ rows) =
    ground (arith, filter-update_where_live token now rows)

filter-replace_other :
    (old : ℕ) (row : AccessToken)
    → row.token ≢ old
    → (rows : List AccessToken)
    → filter (is_token old) (
        update_where
          (is_token row.token)
          (λ x. record row { application_id = x.application_id })
          rows)
      ≡ filter (is_token old) rows
filter-replace_other old row ne [] = refl
filter-replace_other old row ne (r ∷ rows) = ground (arith, filter-replace_other old row ne rows)

filter-append_other :
    (old : ℕ) (row : AccessToken)
    → row.token ≢ old
    → (rows : List AccessToken)
    → filter (is_token old) (rows ++ row ∷ []) ≡ filter (is_token old) rows
filter-append_other old row ne [] = ground arith
filter-append_other old row ne (r ∷ rows) = ground (arith, filter-append_other old row ne rows)

-- The row of another token leaves those of the old one as they are.
filter-upsert_token :
    (old : ℕ) (row : AccessToken) (rows : List AccessToken)
    → row.token ≢ old
    → filter (is_token old) (upsert_token row rows) ≡ filter (is_token old) rows
unfolding upsert_token
filter-upsert_token old row rows ne = elim (Bool-cases (any (is_token row.token) rows)) [
  | inl here ↦ rw here (filter-replace_other old row ne rows)
  | inr new ↦ rw new (filter-append_other old row ne rows)
]

module _ (cfg : BridgeSettings) (expire : Dict UserInfo → Dict UserInfo) (c : Call) (old : ℕ)
    (other : c.token ≢ old) where
  abbrev pub Holds : List AccessToken → Auth → Type 0
  Holds rows = Apart (λ db. filter (is_token old) db.access_tokens ≡ rows) (λ _. Unit {0})

  keep_fresh :
      (rows : List AccessToken) (u : Uuid) (p : Payload)
      → Keeps (Holds rows) (validate_fresh cfg expire c u p)
  unfolding validate_fresh validate_token_uncached
  keep_fresh rows u p =
      keep_bind _ _
        (keep_bind _ _ (keep_in_process _ _ _ (keep_refusal c.reply)) (λ _.
          keep_bind _ _ (keep_query _) (λ gs. keep_bind _ _ (keep_query _) (λ user.
            keep_bind _ _
              (keep_bridge_token_to_osm (λ db. filter (is_token old) db.access_tokens ≡ rows)
                (λ _. Unit {0})
                (record {
                  user = λ _ _ _ _ h. h;
                  application = λ _ _ h. h;
                  token = λ _ _ db h. filter-upsert_token old _ db.access_tokens other ∙ h;
                }))
              (λ _. keep_pure user)))))
        (λ user. keep_bind _ _ (keep_in_process _ _ _ (λ a h. (h.0, tt))) (λ _. keep_pure user))
    where
      keep_refusal :
          (reply : GroupsReply) (a : Auth)
          → Holds rows a
          → Holds rows (log_refusal c.monotonic c.key reply a)
      keep_refusal no_client a h = h
      keep_refusal unreachable a h = h
      keep_refusal not_json a h = h
      keep_refusal (refused status) a h = h
      keep_refusal (groups gs) a h = h

  module _ (a : Auth) where
    abbrev rows_after : List AccessToken
    rows_after = revoked_rows c.revocation c.now (filter (is_token old) a.osm.access_tokens)

    abbrev Recorded : {A : Type 0} → Result A × Session Auth → Type 0
    Recorded r = Both (Holds rows_after) r

    abbrev opened : Session Auth
    opened = record { committed = a; working = a }

    revoke-Ends :
        cfg.enabled ≡ true → Ends Recorded (revoke_osm_token cfg c.now c.revocation old) opened
    unfolding revoke_osm_token swallowing revoke commit_oauth query execute run
    revoke-Ends on = rw on (record { at = go c.revocation })
      where
        go :
            (done : Result (Unit {0}))
            → Both
                (Holds (revoked_rows done c.now (filter (is_token old) a.osm.access_tokens)))
                (swallowed (revoke c.now done old opened))
        go (ok tt) = (
          (filter-update_where_live old c.now a.osm.access_tokens, tt),
          (filter-update_where_live old c.now a.osm.access_tokens, tt),
        )
        go (err e) = ((refl, tt), (refl, tt))

    module _ (u : Uuid) (p : Payload) (cached : UserInfo) (on : cfg.enabled ≡ true)
        (e : cached.credentials ≡ old) where
      rotated-Ends : Ends Recorded (validate_rotated cfg expire c u p cached false) opened
      unfolding validate_rotated
      rotated-Ends = rw e (
          bind_known _ _ (revoke-Ends on)
            (λ _ t q.
              bind_known _ _ ((keep_in_process _ _ _ (λ a h. (h.0, tt))).keeps t q.0 q.1)
                (λ _ t' q'. (keep_fresh rows_after u p).keeps t' q'.0 q'.1) (λ e t' q'. q'))
            (λ e t q. q))

      cached-Ends :
          (o : Option UserInfo)
          → (cached.token_jti == p.jti) ≡ false
          → o ≡ some cached
          → Ends Recorded (validate_cached cfg expire c u p o) opened
      unfolding validate_cached
      cached-Ends o rotated h = rw (h, rotated) rotated-Ends

  module _ (u : Uuid) (p : Payload) (cached : UserInfo) (on : cfg.enabled ≡ true)
      (e : cached.credentials ≡ old) (rotated : (cached.token_jti == p.jti) ≡ false) (a : Auth)
      (found : lookup u (expire a.user_info_cache) ≡ some cached) where
    subject-Ends :
        (sub : Subject)
        → sub ≡ uuid u
        → Ends (Recorded a) (validate_subject cfg expire c p sub) (opened a)
    unfolding validate_subject in_process run
    subject-Ends sub named = rw named (record {
      at =
          (cached-Ends (record a { user_info_cache = expire a.user_info_cache }) u p cached on e
            (lookup u (expire a.user_info_cache)) rotated found).at;
    })

    decoded-Ends :
        (o : Option Payload)
        → o ≡ some p
        → p.sub ≡ uuid u
        → Ends (Recorded a) (validate_decoded cfg expire c o) (opened a)
    unfolding validate_decoded
    decoded-Ends o d named = rw d (record { at = (subject-Ends p.sub named).at })

  -- The mirrored rows of a rotated token: with the bridge on, when a caller's cached entry was fetched
  -- for a token with another id, then in the committed tables after the call, however it ends and
  -- whatever the bridge writes for the new token, which differs from the old, the rows of the cached
  -- token are those of before, with the time of revocation set where there was none if the UPDATE
  -- and its commit went through, and unchanged if either failed, which does not end the call.
  pub validate_token-revokes :
      (a : Auth) (u : Uuid) (p : Payload) (cached : UserInfo)
      → cfg.enabled ≡ true
      → c.decoded ≡ some p
      → p.sub ≡ uuid u
      → lookup u (expire a.user_info_cache) ≡ some cached
      → cached.credentials ≡ old
      → (cached.token_jti == p.jti) ≡ false
      → filter
          (is_token old)
          (validate_token cfg expire c
            (record { committed = a; working = a })).1.committed.osm.access_tokens
        ≡ revoked_rows c.revocation c.now (filter (is_token old) a.osm.access_tokens)
  unfolding validate_token
  validate_token-revokes a u p cached on decoded subject found e rotated =
      (decoded-Ends u p cached on e rotated a found c.decoded decoded subject).at.1.0
