-- ===== src/Upstream.antt =====
-- The upstreams, the groups of backends that requests are sent to: pingap-upstream.
pub mod Peer
