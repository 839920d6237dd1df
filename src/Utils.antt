-- ===== src/Utils.antt =====
-- addon/petkit_local/utils.
pub mod Dicts
pub mod Paths
pub mod Coerce
