-- ===== src/Cache.antt =====
-- The HTTP cache and its storages: pingap-cache.
pub mod Object
pub mod Storage
pub mod Hit
pub mod Http
pub mod Tiny
pub mod File
