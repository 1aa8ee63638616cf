-- ===== src/EventBase/Core.antt =====
-- Adding, deleting and activating events and callbacks (event.c).
mod Defs
mod AddDefs
mod AssignDefs
pub mod Agree
pub mod Keeps
pub mod Base
pub mod Alike
pub mod Drop
pub mod Delete
pub mod Activate
pub mod Insert
pub mod Due
pub mod Room
pub mod Add
pub mod AddTop
pub mod Steps
pub mod Expired
pub mod Process
pub mod Timer
pub mod Assign
pub mod Dropped
pub mod Cancel
pub mod Later
pub mod Settled
unfoldable pub use Defs.*
unfoldable pub use AddDefs.*
unfoldable pub use AssignDefs.*
