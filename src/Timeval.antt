-- ===== src/Timeval.antt =====
-- struct timeval and the macros evutil_timeradd, evutil_timersub, evutil_timerclear,
-- evutil_timercmp and evutil_timerisset of include/event2/util.h.
-- Times are counted from the origin of the monotonic clock and durations are not negative, so both
-- fields are natural numbers.
mod Defs
mod Laws
mod Tests
unfoldable pub use Defs.*
pub use Laws.*
