-- ===== src/Security/Tokens/Failures.antt =====
-- Failures of the bridge of api/core/security.py: `_bridge_token_to_osm` is best-effort.
use Prim.Native.String.{String}
use workspaces_backend.Base.{
  ℕ, ◌≡◌, refl, ap, Bool, true, false, List, Option, none, some, Dict, if◌then◌else◌,
}
use workspaces_backend.Core.{
  Ends, run, Result, ok, err, Error, Session, pure, bind_query, bind_known, bind_raise_if,
  bind_execute, execute, end_query, end_pure,
}
use workspaces_backend.Security.UserInfo.{UserInfo}
use workspaces_backend.Security.Rejections.{Entry}
use workspaces_backend.Tasking.Schema.{Uuid, Datetime}
use workspaces_backend.Workspaces.Schema.{Workspace}
use workspaces_backend.Security.Tokens.State.{
  Auth, BridgeSettings, commit_oauth, swallowing, swallowed,
}
use workspaces_backend.Security.Tokens.Bridge.{
  insert_user_if, ensure_osm_user, application_of, ensure_osm_oauth_application, TokenInfo,
  mirror_for, mirror_with, mirror_token, bridge_token_to_osm,
}

-- What is not in the OSM database.
abbrev pub outside : Auth → List Workspace × (Dict UserInfo × Dict Entry)
outside a = (a.workspaces, (a.user_info_cache, a.rejection_log))

module _ {P : Result (Unit {0}) × Session Auth → Type 0} {s : Session Auth} where
  end_execute :
      (g : Auth → Auth) → P (ok tt, record s { working = g s.working }) → Ends P (execute g) s
  unfolding run
  end_execute g h = record { at = h }

  end_commit_oauth :
      P (ok tt, record s { committed = record s.committed { osm = s.working.osm } })
      → Ends P commit_oauth s
  unfolding commit_oauth
  end_commit_oauth h = record { at = h }

module _ (s : Session Auth) where
  -- A step without a commit.
  abbrev Still : {A : Type 0} → Result A × Session Auth → Type 0
  Still r = (outside r.1.working ≡ outside s.working) × (r.1.committed ≡ s.committed)

  -- A step with one at its end.
  abbrev Whole : {A : Type 0} → Result A × Session Auth → Type 0
  Whole r =
      (outside r.1.working ≡ outside s.working)
      × (outside r.1.committed ≡ outside s.committed)
      × ((e : Error) → r.0 ≡ err e → r.1.committed ≡ s.committed)

  committed_outside :
      (t : Session Auth) → Still (ok tt, t) → outside t.committed ≡ outside s.committed
  committed_outside t q = ap outside q.1

  whole : {A : Type 0} (r : Result A) (t : Session Auth) → Still (r, t) → Whole (r, t)
  whole r t q = (q.0, ap outside q.1, λ e h. q.1)

  insert_user_if-Still :
      (known : Bool) (u : Uuid) (e : Option ℕ) (n : String) (t : Session Auth)
      → Still (ok tt, t)
      → Ends Still (insert_user_if known u e n) t
  unfolding insert_user_if
  insert_user_if-Still true u e n t q = end_pure tt q
  insert_user_if-Still false u e n t q =
      bind_query _ _ (λ taken _. bind_raise_if _ _ _ (λ _. end_execute _ q) q) (λ x. q)

  ensure_osm_user-Still :
      (u : Uuid) (e : Option ℕ) (n : String) (t : Session Auth)
      → Still (ok tt, t)
      → Ends Still (ensure_osm_user u e n) t
  unfolding ensure_osm_user
  ensure_osm_user-Still u e n t q =
      bind_query _ _
        (λ known _.
          bind_known _ _ (insert_user_if-Still known u e n t q) (λ _ t' q'. end_query _ (λ r. q'))
            (λ x t' q'. q'))
        (λ x. q)

  module _ (cfg : BridgeSettings) (now : Datetime) (i : TokenInfo) where
    application_of-Still :
        (o : Option ℕ) (t : Session Auth) → Still (ok tt, t) → Ends Still (application_of cfg o) t
    unfolding application_of
    application_of-Still none t q = end_pure none q
    application_of-Still (some o) t q =
        bind_query _ _ (λ known _. bind_execute _ _ (end_query _ (λ r. q))) (λ x. q)

    mirror_for-Whole :
        (app_id : ℕ) (user_id : Option ℕ) (t : Session Auth)
        → Still (ok tt, t)
        → Ends Whole (mirror_for cfg now i app_id user_id) t
    unfolding mirror_for
    mirror_for-Whole app_id none t q = end_pure tt (whole _ t q)
    mirror_for-Whole app_id (some user_id) t q =
        bind_execute _ _ (end_commit_oauth (q.0, committed_outside t q, λ e h. absurd (cc h)))

    mirror_with-Whole :
        (app_id : Option ℕ) (t : Session Auth)
        → Still (ok tt, t)
        → Ends Whole (mirror_with cfg now i app_id) t
    unfolding mirror_with
    mirror_with-Whole none t q = end_pure tt (whole _ t q)
    mirror_with-Whole (some app_id) t q =
        bind_known _ _ (ensure_osm_user-Still i.user_uuid i.email i.user_name t q)
          (λ user_id t' q'. mirror_for-Whole app_id user_id t' q') (λ e t' q'. whole _ t' q')

    mirror_token-Whole : Ends Whole (mirror_token cfg now i) s
    unfolding mirror_token ensure_osm_oauth_application
    mirror_token-Whole =
        bind_known _ _
          (bind_known _ _ (ensure_osm_user-Still _ _ _ s (refl, refl))
            (λ o t q. application_of-Still o t q) (λ e t q. q))
          (λ app_id t q. mirror_with-Whole app_id t q) (λ e t q. whole _ t q)

    -- What is left of a bridge.
    pub record IsHarmless (r : Result (Unit {0}) × Session Auth) : Type 0 where
      pub succeeds : r.0 ≡ ok tt
      pub apart : outside r.1.working ≡ outside s.working
      pub durable_apart : outside r.1.committed ≡ outside s.committed
      pub undone : (e : Error) → (mirror_token cfg now i s).0 ≡ err e → r.1.committed ≡ s.committed

    swallowed-IsHarmless :
        (r : Result (Unit {0}) × Session Auth)
        → mirror_token cfg now i s ≡ r
        → Whole r
        → IsHarmless (swallowed r)
    swallowed-IsHarmless (ok a, t) e q = record {
      succeeds = refl;
      apart = q.0;
      durable_apart = q.1;
      undone = λ x h. absurd (cc (h, e));
    }
    swallowed-IsHarmless (err x, t) e q = record {
      succeeds = refl;
      apart = q.0;
      durable_apart = q.1;
      undone = λ y h. q.2 x refl;
    }

    -- The bridge never fails a login: however its statements end, it succeeds, the workspaces, the
    -- cache and the rejection log are as before, and where one of them fails, nothing of what was
    -- written for the token is committed.
    pub bridge_token_to_osm-IsHarmless : IsHarmless (bridge_token_to_osm cfg now i s)
    unfolding bridge_token_to_osm swallowing run
    bridge_token_to_osm-IsHarmless = go cfg.enabled
      where
        go :
            (on : Bool)
            → IsHarmless ((if on then swallowing (mirror_token cfg now i) else pure tt) s)
        go true = swallowed-IsHarmless (mirror_token cfg now i s) refl mirror_token-Whole.at
        go false = record {
          succeeds = refl;
          apart = refl;
          durable_apart = refl;
          undone = λ e h. refl;
        }
