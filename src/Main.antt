-- ===== src/Main.antt =====
-- src/main.c: the connection, the grab state that drives the display's input, and the clean end.
pub mod Loop
pub mod After
pub mod Blind
pub mod Display
pub mod Closed
pub mod Title
pub mod Titled
pub mod Shows
pub mod Sound
pub mod Program
pub mod Clean
pub mod Reads
pub mod Lasts
pub mod Leaving
pub mod Freed
pub mod Writes
