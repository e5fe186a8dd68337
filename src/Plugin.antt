-- ===== src/Plugin.antt =====
-- Plugins of pingap-plugin, which answer or change a request.
pub mod IpRestriction
pub mod KeyAuth
pub mod Csrf
pub mod RefererRestriction
pub mod UaRestriction
pub mod BasicAuth
pub mod CombinedAuth
pub mod Redirect
pub mod ResponseHeaders
pub mod AcceptEncoding
pub mod Limit
