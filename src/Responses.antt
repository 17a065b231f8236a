-- ===== src/Responses.antt =====
-- The extractors of response codes (aflnet.c).
pub mod Lines
pub mod Dtls
pub mod Tls
pub mod Dns
