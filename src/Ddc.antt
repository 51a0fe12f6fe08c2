-- ===== src/Ddc.antt =====
-- src/ddcci.c: the display's command interface over an i2c bus.
pub mod Packet
pub mod Bus
pub mod Integrity
pub mod Descriptors
pub mod Pace
pub mod Find
pub mod Messages
pub mod Waits
pub mod Timed
pub mod Kept
pub mod Written
