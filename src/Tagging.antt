-- ===== src/Tagging.antt =====
-- The tagged data of event_tagging.c.
pub mod Codec
pub mod Calls
mod Tags
mod Nibbles
mod Ints
mod Reading
mod Numbers
mod Marshal
mod Tests
