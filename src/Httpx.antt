-- ===== src/Httpx.antt =====
-- internal/httpx: what surrounds every handler.
pub mod RequestId
pub mod Recovery
pub mod Uuid
pub mod Served
pub mod Logger
