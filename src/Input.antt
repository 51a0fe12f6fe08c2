-- ===== src/Input.antt =====
-- src/input.c: the keyboard and mouse devices, and what is sent of them to the SPICE server.
pub mod Keys
pub mod Scancodes
pub mod State
pub mod Grab
pub mod Report
pub mod Device
pub mod Invariant
pub mod Held
pub mod Toggle
pub mod Heard
pub mod Motion
pub mod Strokes
pub mod Probe
pub mod System
pub mod Slots
pub mod Reachable
pub mod Init
pub mod Sharing
pub mod Run
pub mod Observer
pub mod Buttons
pub mod Guest
pub mod Told
pub mod Host
pub mod Refines
pub mod Release
pub mod Stuck
pub mod Races
pub mod Range
