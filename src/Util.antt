-- ===== src/Util.antt =====
-- Helpers of pingap-util/src.
pub mod Format
pub mod Datetime
pub mod Paths
