-- ===== src/Tasking/Projects.antt =====
-- api/src/tasking/projects: projects, their lifecycle, their area of interest and their roles.
pub mod Queries
pub mod Lifecycle
pub mod Edit
pub mod Provision
pub mod Create
pub mod Roles
