-- ===== src/Buffer.antt =====
-- The byte buffers of buffer.c: the operations, the invariant that each keeps, and what each does to
-- the bytes.
pub mod Defs
pub mod Chains
pub mod Invariant
pub mod Append
pub mod Overflow
pub mod Add
pub mod Precede
pub mod Prepend
pub mod Drain
pub mod Copy
pub mod Remove
pub mod Gather
pub mod PullInto
pub mod Pullup
pub mod Move
pub mod Reach
pub mod RemoveBuffer
pub mod TakeChains
pub mod Receive
mod Tests
