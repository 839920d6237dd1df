-- ===== src/Media.antt =====
-- addon/petkit_local/media.
pub mod Retention
pub mod Caps
