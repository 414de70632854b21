-- ===== src/Tests.antt =====
-- The theorems at concrete data.
pub mod Config
pub mod Dns
pub mod Verify
pub mod Proxy
pub mod Clients
pub mod Handlers
