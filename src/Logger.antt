-- ===== src/Logger.antt =====
-- The access log of pingap-logger/src.
pub mod Format
pub mod Entry
