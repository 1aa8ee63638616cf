-- ===== src/Timeval/Defs.antt =====
-- The macros of include/event2/util.h on struct timeval.
use libevent.Common.{ℕ, ◌+◌, ◌-◌, ◌*◌, ◌<◌, Bool, ◌==◌, ltb, leb, not, ◌&&◌, if◌then◌else◌}

pub record Timeval : Type 0 where
  pub tv_sec : ℕ
  pub tv_usec : ℕ

abbrev pub timerclear : Timeval
timerclear = record { tv_sec = 0; tv_usec = 0 }

-- tvp->tv_sec || tvp->tv_usec
unfoldable pub timerisset : Timeval → Bool
timerisset t = not (t.tv_sec == 0 && t.tv_usec == 0)

-- evutil_timercmp with <, <= and >=; with > it is `timercmp_lt` the other way round.
unfoldable pub timercmp_lt : Timeval → Timeval → Bool
timercmp_lt t u = if t.tv_sec == u.tv_sec then ltb t.tv_usec u.tv_usec else ltb t.tv_sec u.tv_sec

unfoldable pub timercmp_le : Timeval → Timeval → Bool
timercmp_le t u = if t.tv_sec == u.tv_sec then leb t.tv_usec u.tv_usec else ltb t.tv_sec u.tv_sec

abbrev pub timercmp_gt : Timeval → Timeval → Bool
timercmp_gt t u = timercmp_lt u t

abbrev pub timercmp_ge : Timeval → Timeval → Bool
timercmp_ge t u = timercmp_le u t

unfoldable pub timeradd : Timeval → Timeval → Timeval
timeradd t u =
    if leb 1000000 (t.tv_usec + u.tv_usec)
    then record { tv_sec = t.tv_sec + u.tv_sec + 1; tv_usec = t.tv_usec + u.tv_usec - 1000000 }
    else record { tv_sec = t.tv_sec + u.tv_sec; tv_usec = t.tv_usec + u.tv_usec }

-- Its callers see to it that `u` is not later than `t`. A negative difference of the microseconds
-- borrows a second.
unfoldable pub timersub : Timeval → Timeval → Timeval
timersub t u =
    if ltb t.tv_usec u.tv_usec
    then record { tv_sec = t.tv_sec - u.tv_sec - 1; tv_usec = t.tv_usec + 1000000 - u.tv_usec }
    else record { tv_sec = t.tv_sec - u.tv_sec; tv_usec = t.tv_usec - u.tv_usec }

-- A time whose microseconds make up less than a second.
pub record IsNormal (t : Timeval) : Type 0 where
  pub below : t.tv_usec < 1000000

-- The microseconds since the origin.
abbrev pub usecs : Timeval → ℕ
usecs t = t.tv_sec * 1000000 + t.tv_usec
