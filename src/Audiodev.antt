-- ===== src/Audiodev.antt =====
-- src/audiodev.c: the two PipeWire streams.
pub mod Stream
pub mod Player
pub mod Recorder
pub mod Agree
pub mod Latency
pub mod Process
pub mod Backend
