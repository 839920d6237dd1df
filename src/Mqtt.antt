-- ===== src/Mqtt.antt =====
-- The MQTT side of the add-on: addon/petkit_local/mqtt/.
pub mod Topics
pub mod Relay
pub mod Upstream
pub mod Auth
