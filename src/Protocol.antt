-- ===== src/Protocol.antt =====
-- The wire protocol (internal/shared/protocol).
pub mod Frame
pub mod Geometry
pub mod Messages
