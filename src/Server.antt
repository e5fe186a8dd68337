-- ===== src/Server.antt =====
-- The proxy server: src/proxy/server.rs.
pub mod Routes
pub mod Plugins
pub mod State
pub mod Early
pub mod Filters
pub mod Logging
pub mod Balance
pub mod Proxy
pub mod Responses
