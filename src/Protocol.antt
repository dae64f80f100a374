-- ===== src/Protocol.antt =====
-- The Doubao binary protocol on the device: main/doubao_protocol.h and main/doubao_protocol.c.
pub mod Constants
pub mod Wire
pub mod Platform
pub mod Gzip
pub mod Response
pub mod Compress
