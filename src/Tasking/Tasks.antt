-- ===== src/Tasking/Tasks.antt =====
-- api/src/tasking/tasks: tasks, their locks, and the submit flow.
pub mod Queries
pub mod Response
pub mod Locks
pub mod Submit
pub mod Save
pub mod Listing
