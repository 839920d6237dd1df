-- ===== src/Ble.antt =====
-- The Bluetooth accessories: addon/petkit_local/devices/ble/.
pub mod Framing
pub mod Reading
pub mod Ctw3
pub mod W5
pub mod Command
pub mod Mac
pub mod Registry
