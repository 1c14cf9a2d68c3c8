-- ===== src/Firmware.antt =====
-- The firmware's main loop and the hardware layer under it.
pub mod Hal
pub mod UsbDevice
pub mod Loop
pub mod Lines
pub mod Main
