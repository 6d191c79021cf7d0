-- ===== src/Workspaces/Properties.antt =====
-- What makes the endpoints for workspaces, members and teams correct.
mod Preservation
pub mod Teams
pub mod Creation
pub mod Quests
pub mod References
pub mod Roles
pub mod Deletion
