-- ===== src/EventBase/Queues.antt =====
-- The queues of active callbacks.
mod Defs
pub mod Invariant
unfoldable pub use Defs.*
