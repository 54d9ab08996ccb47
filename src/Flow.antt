-- ===== src/Flow.antt =====
-- The parts put together: a submission on its way from the handler that stores it to its owner.
pub mod Stored
pub mod Scene
pub mod Served
pub mod Watched
