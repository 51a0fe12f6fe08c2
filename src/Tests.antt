-- ===== src/Tests.antt =====
-- Runs of the models at concrete inputs, and the theorems at them.
mod Keyboard
mod Pointer
mod Display
mod Sound
mod Stream
mod Ends
mod Runs
pub mod Late
