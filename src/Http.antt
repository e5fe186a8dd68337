-- ===== src/Http.antt =====
-- Request headers and the helpers of pingap-core/src/http_header.rs.
pub mod Header
pub mod Query
pub mod Values
