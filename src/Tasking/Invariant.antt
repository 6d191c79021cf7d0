-- ===== src/Tasking/Invariant.antt =====
-- The invariant of the tasking tables, and the kinds of statement that the repositories of
-- api/src/tasking execute against it.
mod State
mod Statements
mod Inserts
pub use State.*
pub use Statements.*
pub use Inserts.*
