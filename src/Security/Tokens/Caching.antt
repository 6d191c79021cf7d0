-- ===== src/Security/Tokens/Caching.antt =====
-- The cache of `validate_token` of api/core/security.py: whose permissions a caller gets.
use workspaces_backend.Base.{
  ℕ, ◌≡◌, refl, sym, ap, ◌∙◌, subst, ◌==◌, Option, none, some, Dict, lookup, insert, erase,
  lookup-insert, lookup-erase, ◌⊎◌, inl, inr, arith, Bool-cases,
}
use workspaces_backend.Core.{
  Action, ◌>>=◌, ◌>>◌, Keeps, Ends, run, Both, Result, ok, err, Session, pure, raise, Error,
  bind_query, bind_found, bind_known,
}
use workspaces_backend.Security.UserInfo.{UserInfo}
use workspaces_backend.Tasking.Schema.{Uuid}
use workspaces_backend.Security.Tokens.State.{Auth, BridgeSettings, in_process}
use workspaces_backend.Security.Tokens.Permissions.{
  Subject, absent, malformed, uuid, Payload, GroupsReply, no_client, unreachable, not_json, refused,
  groups, logged, log_refusal, user_info, validate_token_uncached,
}
use workspaces_backend.Security.Tokens.Validation.{
  Call, validate_token, validate_decoded, validate_subject, validate_cached, validate_rotated,
  validate_fresh,
}
use workspaces_backend.Security.Tokens.Keeping.{
  Apart, keep_in_process, keep_bridge_token_to_osm, keep_revoke_osm_token,
}

-- The cache only forgets: what it still has after an access was there before it.
abbrev pub Drops : (Dict UserInfo → Dict UserInfo) → Type 0
Drops expire =
    (k : ℕ) (d : Dict UserInfo) → (lookup k (expire d) ≡ none) ⊎ (lookup k (expire d) ≡ lookup k d)

-- Each entry is about the user whose id it stands under.
abbrev pub Owned : Dict UserInfo → Type 0
Owned d = (k : ℕ) (u : UserInfo) → lookup k d ≡ some u → u.user_uuid ≡ k

pub Owned-insert :
    (k : Uuid) (u : UserInfo) (d : Dict UserInfo) → u.user_uuid ≡ k → Owned d → Owned (insert k u d)
Owned-insert k u d e h j v f = elim (Bool-cases (k == j)) [
  | inl same ↦
      let here : lookup j (insert k u d) ≡ some u = rw (lookup-insert k j u d, same) refl in
      let which : v ≡ u = cc in let key : k ≡ j = ground arith in cc
  | inr apart ↦ h j v (sym (rw (lookup-insert k j u d, apart) refl) ∙ f)
]

pub Owned-erase : (k : Uuid) (d : Dict UserInfo) → Owned d → Owned (erase k d)
Owned-erase k d h j v f = elim (Bool-cases (k == j)) [
  | inl same ↦
      let gone : lookup j (erase k d) ≡ none = rw (lookup-erase k j d, same) refl in absurd (cc)
  | inr apart ↦ h j v (sym (rw (lookup-erase k j d, apart) refl) ∙ f)
]

pub Owned-expire :
    (expire : Dict UserInfo → Dict UserInfo)
    → Drops expire
    → (d : Dict UserInfo) → Owned d
    → Owned (expire d)
Owned-expire expire drops d h j v f = elim (drops j d) [
  | inl gone ↦ absurd (cc)
  | inr same ↦ h j v (sym same ∙ f)
]

abbrev Cached : Auth → Type 0
Cached = Apart (λ _. Unit {0}) Owned

-- The cache is kept, and an answer is as claimed.
abbrev Answers : (UserInfo → Type 0) → Result UserInfo × Session Auth → Type 0
Answers W r = Both Cached r × ((u : UserInfo) → r.0 ≡ ok u → W u)

refused_with :
    (W : UserInfo → Type 0) (e : Error) (s : Session Auth)
    → Cached s.working
    → Cached s.committed
    → Answers W (err e, s)
refused_with W e s v k = ((v, k), λ u h. absurd (cc h))

answer_with :
    (W : UserInfo → Type 0) (u : UserInfo) {s : Session Auth}
    → Cached s.working
    → Cached s.committed
    → W u
    → Ends (Answers W) (pure u) s
unfolding run
answer_with W u {s} v c h = record { at = ((v, c), λ x e. subst W (go u x e) h) }
  where
    go : (x y : UserInfo) → ok x ≡ ok y → x ≡ y
    go x y e = cc e

-- A step that keeps the cache, with an answer still to come.
then-Keeps :
    {B : Type 0} (W : UserInfo → Type 0) (m : Action Auth B) (k : B → Action Auth UserInfo)
    {s : Session Auth}
    → Keeps Cached m
    → Cached s.working
    → Cached s.committed
    → ((b : B) (t : Session Auth)
        → Cached t.working
        → Cached t.committed
        → Ends (Answers W) (k b) t)
    → Ends (Answers W) (m >>= k) s
then-Keeps W m k {s} keep v c rest =
    bind_known m k (keep.keeps s v c) (λ b t q. rest b t q.0 q.1)
      (λ e t q. refused_with W e t q.0 q.1)

keep_refusal :
    (m key : ℕ) (reply : GroupsReply) (a : Auth) → Cached a → Cached (log_refusal m key reply a)
keep_refusal m key no_client a h = h
keep_refusal m key unreachable a h = h
keep_refusal m key not_json a h = h
keep_refusal m key (refused status) a h = h
keep_refusal m key (groups gs) a h = h

keep_logged : (m key : ℕ) → Keeps Cached (in_process (logged m key))
keep_logged m key = keep_in_process _ _ _ (λ a h. h)

module _ (cfg : BridgeSettings) (expire : Dict UserInfo → Dict UserInfo) (drops : Drops expire)
    (c : Call) where
  abbrev Current : Uuid → Payload → UserInfo → Type 0
  Current u p x = (x.user_uuid ≡ u) × (x.token_jti ≡ p.jti)

  uncached-Ends :
      (u : Uuid) (p : Payload) (s : Session Auth)
      → Cached s.working
      → Cached s.committed
      → Ends
          (Answers (Current u p))
          (validate_token_uncached cfg c.monotonic c.now c.key c.reply u c.token p)
          s
  unfolding validate_token_uncached user_info
  uncached-Ends u p s v k =
      then-Keeps _ _ _ (keep_in_process _ _ _ (keep_refusal c.monotonic c.key c.reply)) v k
        (λ _ t v' k'.
          bind_query _ _
            (λ gs _. bind_found _ _ refl (
              then-Keeps _ _ _
                (keep_bridge_token_to_osm (λ _. Unit {0}) Owned
                  (record {
                    user = λ _ _ _ _ _. tt;
                    application = λ _ _ _. tt;
                    token = λ _ _ _ _. tt;
                  }))
                v' k' (λ _ t' v'' k''. answer_with _ _ v'' k'' (refl, refl))))
            (λ e. refused_with _ e t v' k'))

  fresh-Ends :
      (u : Uuid) (p : Payload) (s : Session Auth)
      → Cached s.working
      → Cached s.committed
      → Ends (Answers (Current u p)) (validate_fresh cfg expire c u p) s
  unfolding validate_fresh
  fresh-Ends u p s v k =
      bind_known _ _ (uncached-Ends u p s v k)
        (λ x t q.
          then-Keeps _ _ _
            (keep_in_process _ _ _ (λ a h. (
              tt,
              Owned-expire expire drops _ (Owned-insert u x a.user_info_cache (q.1 x refl).0 h.1),
            )))
            q.0.0 q.0.1 (λ _ t' v' k'. answer_with _ x v' k' (q.1 x refl)))
        (λ e t q. refused_with _ e t q.0.0 q.0.1)

  rotated-Ends :
      (u : Uuid) (p : Payload) (cached : UserInfo) (s : Session Auth)
      → cached.user_uuid ≡ u
      → Cached s.working
      → Cached s.committed
      → Ends
          (Answers (Current u p))
          (validate_rotated cfg expire c u p cached (cached.token_jti == p.jti))
          s
  unfolding validate_rotated
  rotated-Ends u p cached s own v k = elim (Bool-cases (cached.token_jti == p.jti)) [
    | inl same ↦ rw same (answer_with _ cached v k (own, ground arith))
    | inr other ↦ rw other (
        then-Keeps _ _ _
          (keep_revoke_osm_token cfg c.now c.revocation cached.credentials (λ _. Unit {0}) Owned
            (λ _ _. tt))
          v k
          (λ _ t v' k'.
            then-Keeps _ _ _
              (keep_in_process _ _ _ (λ a h. (tt, Owned-erase u a.user_info_cache h.1))) v' k'
              (λ _ t' v'' k''. fresh-Ends u p t' v'' k'')))
  ]

  Cached-Ends :
      (u : Uuid) (p : Payload) (o : Option UserInfo) (s : Session Auth)
      → ((x : UserInfo) → o ≡ some x → x.user_uuid ≡ u)
      → Cached s.working
      → Cached s.committed
      → Ends (Answers (Current u p)) (validate_cached cfg expire c u p o) s
  unfolding validate_cached
  Cached-Ends u p none s own v k = fresh-Ends u p s v k
  Cached-Ends u p (some x) s own v k = rotated-Ends u p x s (own x refl) v k

  abbrev Named : Payload → Subject → UserInfo → Type 0
  Named p sub x = (sub ≡ uuid x.user_uuid) × (x.token_jti ≡ p.jti)

  Named-Ends :
      (u : Uuid) (p : Payload) (m : Action Auth UserInfo) (s : Session Auth)
      → Ends (Answers (Current u p)) m s
      → Ends (Answers (Named p (uuid u))) m s
  Named-Ends u p m s h = record {
    at = (h.at.0, λ x e. (ap uuid (sym (h.at.1 x e).0), (h.at.1 x e).1));
  }

  refusal-Ends :
      (W : UserInfo → Type 0) (e : Error) (s : Session Auth)
      → Cached s.working
      → Cached s.committed
      → Ends (Answers W) (in_process (logged c.monotonic c.key) >> raise e) s
  unfolding run
  refusal-Ends W e s v k =
      then-Keeps W _ _ (keep_logged c.monotonic c.key) v k
        (λ _ t v' k'. record { at = refused_with W e t v' k' })

  subject-Ends :
      (p : Payload) (sub : Subject) (s : Session Auth)
      → Cached s.working
      → Cached s.committed
      → Ends (Answers (Named p sub)) (validate_subject cfg expire c p sub) s
  unfolding validate_subject
  subject-Ends p absent s v k = refusal-Ends _ _ s v k
  subject-Ends p malformed s v k = refusal-Ends _ _ s v k
  subject-Ends p (uuid u) s v k =
      then-Keeps _ _ _
        (keep_in_process _ _ _ (λ a h. (tt, Owned-expire expire drops a.user_info_cache h.1))) v k
        (λ _ t v' k'. bind_found _ _ refl (Named-Ends u p _ t (Cached-Ends u p _ t (v'.1 u) v' k')))

  -- The answer is about the caller that the token names, with permissions that were fetched for a
  -- token of the same id.
  pub record IsCaller (x : UserInfo) : Type 0 where
    pub payload : Payload
    pub decoded : c.decoded ≡ some payload
    pub subject : payload.sub ≡ uuid x.user_uuid
    pub token_id : x.token_jti ≡ payload.jti

  decoded-Ends :
      (o : Option Payload) (s : Session Auth)
      → c.decoded ≡ o
      → Cached s.working
      → Cached s.committed
      → Ends (Answers IsCaller) (validate_decoded cfg expire c o) s
  unfolding validate_decoded
  decoded-Ends none s e v k = refusal-Ends _ _ s v k
  decoded-Ends (some p) s e v k =
      let h = subject-Ends p p.sub s v k in
      record {
        at = (
          h.at.0,
          λ x r. record {
            payload = p;
            decoded = e;
            subject = (h.at.1 x r).0;
            token_id = (h.at.1 x r).1;
          },
        );
      }

  -- Nobody gets another caller's permissions: in a cache whose entries each stand under their own
  -- user's id, and which otherwise only forgets, an accepted call answers with the user that the
  -- token names and with the token's id, whether the answer was cached, rotated or fetched; and the
  -- cache is as sound afterwards, however the call ends.
  pub validate_token-IsCaller :
      (a : Auth)
      → Owned a.user_info_cache
      → Owned
          (validate_token cfg expire c
            (record { committed = a; working = a })).1.committed.user_info_cache
        × ((x : UserInfo)
            → (validate_token cfg expire c (record { committed = a; working = a })).0 ≡ ok x
            → IsCaller x)
  unfolding validate_token
  validate_token-IsCaller a h =
      let ends =
        decoded-Ends c.decoded (record { committed = a; working = a }) refl (tt, h) (tt, h) in
      (ends.at.0.1.1, ends.at.1)
