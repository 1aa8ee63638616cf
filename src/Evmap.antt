-- ===== src/Evmap.antt =====
-- The map from file descriptors and signals to events (evmap.c).
mod Defs
pub mod Counts
pub mod Space
pub mod Entry
pub mod Frame
pub mod Io
pub mod Backend
pub mod Same
pub mod Signal
pub mod SignalDel
mod Tests
unfoldable pub use Defs.*
