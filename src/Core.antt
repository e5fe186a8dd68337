-- ===== src/Core.antt =====
-- The request context, responses and the plugin interface: pingap-core/src.
pub mod Ctx
pub mod Plugin
pub mod Limit
