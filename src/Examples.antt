-- ===== src/Examples.antt =====
-- A small workspace, and each theorem at work in it.
pub mod Data
mod Theorems
mod Projects
mod Restarts
mod Tokens
mod Places
mod Reviewing
mod Served
mod Proxying
mod Caching
