-- ===== src/EventBase/Timeouts.antt =====
-- The queues of timeouts.
mod Defs
pub mod Common
pub mod Invariant
pub mod Insert
unfoldable pub use Defs.*
