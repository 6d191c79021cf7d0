-- ===== src/Tasking.antt =====
-- The tasking manager of api/src/tasking: its tables, and the repositories over them.
pub mod Values
pub mod Dtos
pub mod Schema
pub mod Geometry
pub mod Tasks
pub mod Invariant
pub mod Safety
pub mod Service
pub mod Routes
pub mod Properties
pub mod Projects
