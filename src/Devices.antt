-- ===== src/Devices.antt =====
-- addon/petkit_local/devices, less its BLE families.
pub mod Pending
pub mod Persisted
pub mod Ids
pub mod Registry
