-- ===== src/Workspaces.antt =====
-- api/src/workspaces, api/src/users, api/src/teams and api/src/osm: workspaces, their members,
-- teams and jobs, in two databases.
pub mod Schema
pub mod World
pub mod Queries
pub mod Settings
pub mod Members
pub mod Teams
pub mod Jobs
pub mod Routes
pub mod SettingsRoutes
pub mod MemberRoutes
pub mod Properties
