-- ===== src/Tasking/Safety.antt =====
-- The operations of api/src/tasking against the invariant of its tables, one file for each file
-- of operations.
pub mod Reads
pub mod Writes
pub mod Locks
pub mod Work
pub mod Submit
pub mod ProjectWrites
pub mod Projects
pub mod Edits
pub mod Saves
pub mod Roles
