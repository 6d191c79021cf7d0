-- ===== src/Examples/Caching.antt =====
-- Tokens that the backend caches, rotates and mirrors.
use workspaces_backend.Base.{
  ◌≡◌, refl, true, filter, ◌&&◌, ◌||◌, ◌==◌, [], ◌∷◌, none, some, Dict, any, inr, arith,
}
use workspaces_backend.Core.{ok}
use workspaces_backend.Security.UserInfo.{UserInfo, is_workspace_contributor, is_workspace_lead}
use workspaces_backend.Tasking.Schema.{lead}
use workspaces_backend.Examples.Places.{petra, place, group}
use workspaces_backend.Security.Tokens.State.{Auth, AccessToken, BridgeSettings}
use workspaces_backend.Security.Tokens.Bridge.{is_token, TokenInfo, bridge_token_to_osm}
use workspaces_backend.Security.Tokens.Failures.{IsHarmless, bridge_token_to_osm-IsHarmless}
use workspaces_backend.Security.Tokens.Permissions.{uuid, Payload, groups, user_info, is_in_groups}
use workspaces_backend.Security.Tokens.Validation.{Call, validate_token}
use workspaces_backend.Security.Tokens.Caching.{Drops, Owned, IsCaller, validate_token-IsCaller}
use workspaces_backend.Security.Tokens.Rotation.{validate_token-revokes, revoked_rows}
use workspaces_backend.Security.Tokens.Derivation.{
  is_lead_row, leads_through, user_info-permissions,
}

abbrev bridged : BridgeSettings
bridged = record {
  enabled = true;
  client_uid = 40;
  scopes = 1;
  system_user_auth_uid = 99;
  system_user_email = none;
  system_user_display_name = "system";
}

abbrev old_row : AccessToken
old_row = record {
  application_id = 1;
  resource_owner_id = 3;
  token = 0;
  scopes = 1;
  created_at = 1;
  expires_in = none;
  revoked_at = none;
}

abbrev auth : Auth
auth = record {
  osm = record {
    users = [];
    applications = [];
    access_tokens = old_row ∷ [];
    user_workspace_roles = record { user_auth_uid = 7; workspace_id = 2; role = lead } ∷ [];
    next_user_id = 1;
    next_application_id = 1;
  };
  workspaces = place ∷ [];
  user_info_cache = (7, petra) ∷ [];
  rejection_log = [];
}

abbrev payload : Payload
payload = record {
  sub = uuid 7;
  jti = 5;
  preferred_username = "petra";
  email = some 70;
  exp = some 100;
}

-- A token with another id than the cached one.
abbrev call : Call
call = record {
  token = 12;
  key = 1;
  monotonic = 1;
  now = 10;
  decoded = some payload;
  reply = groups (group ∷ []);
  revocation = ok tt;
}

abbrev keep_all : Dict UserInfo → Dict UserInfo
keep_all d = d

keep_all-Drops : Drops keep_all
keep_all-Drops k d = inr refl

auth-Owned : Owned auth.user_info_cache
auth-Owned k u e = ground (arith, e)

validate_token-IsCaller_example :
    Owned
      (validate_token bridged keep_all call
        (record { committed = auth; working = auth })).1.committed.user_info_cache
    × ((x : UserInfo)
        → (validate_token bridged keep_all call (record { committed = auth; working = auth })).0
          ≡ ok x
        → IsCaller bridged keep_all keep_all-Drops call x)
validate_token-IsCaller_example =
    validate_token-IsCaller bridged keep_all keep_all-Drops call auth auth-Owned

validate_token-revokes_example :
    filter
      (is_token 0)
      (validate_token bridged keep_all call
        (record { committed = auth; working = auth })).1.committed.osm.access_tokens
    ≡ revoked_rows call.revocation call.now (filter (is_token 0) auth.osm.access_tokens)
validate_token-revokes_example =
    validate_token-revokes bridged keep_all call 0 (λ e. omega arith) auth 7 payload petra refl refl
      refl refl refl refl

user_info-permissions_example :
    (is_workspace_contributor (user_info 7 12 payload (group ∷ []) auth) 1
      ≡ any (λ x. is_in_groups (group ∷ []) x && x.id == 1) auth.workspaces)
    × (is_workspace_lead (user_info 7 12 payload (group ∷ []) auth) 1 ≡ (
        any (is_lead_row 7 1) auth.osm.user_workspace_roles
        || any (leads_through auth.workspaces 1) (group ∷ [])))
user_info-permissions_example = user_info-permissions 7 12 payload (group ∷ []) auth 1

abbrev caller : TokenInfo
caller = record { user_uuid = 7; user_name = "petra"; email = some 70; token = 12; exp = some 100 }

bridge_token_to_osm-IsHarmless_example :
    IsHarmless
      (record { committed = auth; working = auth })
      bridged
      10
      caller
      (bridge_token_to_osm bridged 10 caller (record { committed = auth; working = auth }))
bridge_token_to_osm-IsHarmless_example =
    bridge_token_to_osm-IsHarmless (record { committed = auth; working = auth }) bridged 10 caller
