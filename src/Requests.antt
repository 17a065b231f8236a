-- ===== src/Requests.antt =====
-- Extraction of requests (aflnet.c, `extract_requests_*`): a seed's bytes to the regions of its
-- messages.
pub mod Lines
pub mod Framed
pub mod Dicom
pub mod Dtls
pub mod Dns
