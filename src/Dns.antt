-- ===== src/Dns.antt =====
-- The DNS router of internal/dnsrouter.
pub mod Parser
pub mod Pending
pub mod Routes
pub mod Response
pub mod Edns
pub mod Verify
pub mod Router
