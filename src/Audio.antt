-- ===== src/Audio.antt =====
-- src/audio.c: what is played and recorded.
pub mod Playback
pub mod Recording
pub mod Balance
pub mod Endless
pub mod Outside
pub mod Live
pub mod Pull
pub mod Clock
pub mod Packet
pub mod Positions
pub mod Stored
pub mod Session
pub mod Quiet
pub mod Silence
pub mod Rest
pub mod Informed
pub mod Carried
pub mod Known
pub mod Timing
pub mod Shutdown
pub mod Unstarted
pub mod Failing
