-- ===== src/Proxy/Properties.antt =====
-- What the proxy promises.
pub mod Numbers
pub mod Sets
pub mod Sources
pub mod Access
pub mod Prefix
pub mod Manifest
pub mod Reviews
