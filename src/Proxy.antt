-- ===== src/Proxy.antt =====
-- api/main.py: the proxy in front of the OSM service.
pub mod Text
pub mod Paths
pub mod Encoding
pub mod Headers
pub mod Resolve
pub mod Review
pub mod Forward
pub mod Capabilities
pub mod Properties
