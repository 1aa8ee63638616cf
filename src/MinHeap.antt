-- ===== src/MinHeap.antt =====
-- The priority queue of timeouts (minheap-internal.h): the operations, and below them what keeps the
-- events' indices right, what keeps the order, and what each operation does to the set of events.
mod Defs
pub mod Index
pub mod Order
pub mod Shift
pub mod Refill
pub mod Push
pub mod Remove
mod Tests
unfoldable pub use Defs.*
