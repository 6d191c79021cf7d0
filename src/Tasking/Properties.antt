-- ===== src/Tasking/Properties.antt =====
-- What makes the tasking service correct, one file for each concern.
pub mod Soundness
pub mod FourEyes
pub mod Transitions
pub mod Submission
pub mod Locking
pub mod Leads
pub mod RoleSteps
pub mod RoleChanges
pub mod Numbering
pub mod Stored
pub mod Saving
pub mod Lifecycle
pub mod Patching
pub mod Releasing
pub mod Resetting
pub mod Atomicity
pub mod Paging
pub mod Selection
pub mod Responses
pub mod Pages
pub mod Guards
pub mod Access
pub mod Frames
pub mod Ownership
