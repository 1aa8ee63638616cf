-- ===== src/Buffer/Defs.antt =====
-- What buffer.c does: its chains, its state, and the functions that add, take and move bytes.
pub mod Chain
pub mod State
pub mod Add
pub mod Take
pub mod Move
pub mod RemoveBuffer
