-- ===== src/Proxy.antt =====
-- The proxies of internal/proxy.
pub mod Stream
pub mod Socks5
pub mod WebSocket
pub mod Payload
