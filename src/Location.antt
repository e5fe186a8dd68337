-- ===== src/Location.antt =====
-- Locations, the routes of pingap: pingap-location/src.
pub mod Capture
pub mod Selector
pub mod Route
pub mod Registry
