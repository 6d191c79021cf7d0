-- ===== src/Security.antt =====
-- api/core/security.py: who the caller is and what the caller may do.
pub mod UserInfo
pub mod Rejections
pub mod Credentials
pub mod Placement
pub mod Members
pub mod Tokens
