-- ===== src/Security/Tokens.antt =====
-- `validate_token` of api/core/security.py: the token cache, the permissions behind it and the bridge
-- to the OSM database.
pub mod State
pub mod Bridge
pub mod Permissions
pub mod Validation
pub mod Keeping
pub mod Caching
pub mod Rotation
pub mod Derivation
pub mod Failures
