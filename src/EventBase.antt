-- ===== src/EventBase.antt =====
-- The event base (event.c): its state, its queues, and what adding, deleting and activating events
-- does to them.
mod State
pub mod Queues
pub mod Timeouts
pub mod Core
mod Tests
unfoldable pub use State.*
