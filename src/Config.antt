-- ===== src/Config.antt =====
-- The configuration of a pingap process: pingap-config/src/common.rs.
pub mod Conf
pub mod Error
pub mod Toml
pub mod Validate
pub mod Weight
pub mod Pingap
