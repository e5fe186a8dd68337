-- ===== src/Certificate.antt =====
-- Certificates of TLS: pingap-certificate/src.
pub mod X509
pub mod SelfSigned
pub mod Store
