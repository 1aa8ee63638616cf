-- ===== src/TokenBucket.antt =====
-- Token buckets, which limit the rate of buffered events (bufferevent_ratelim.c).
mod Defs
pub mod Update
mod Tests
unfoldable pub use Defs.*
