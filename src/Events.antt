-- ===== src/Events.antt =====
-- The event history: addon/petkit_local/events/.
pub mod Rows
pub mod Sessions
