-- ===== src/Ota.antt =====
-- The firmware's versions and its update over WiFi: firmware/src/ota_version.c and ota_update.c.
pub mod Version
pub mod Flash
pub mod Text
pub mod Url
pub mod Headers
pub mod Json
pub mod Http
pub mod Client
pub mod Update
mod Tests
