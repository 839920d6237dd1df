-- ===== src/Tests.antt =====
-- The theorems applied at concrete inputs.
mod Ble
mod Mqtt
mod Events
mod Media
mod Utils
mod Http
mod Upstream
mod Devices
mod Accessories
mod Registries
mod Auth
