-- ===== src/Timeval/Laws.antt =====
-- The macros on struct timeval as arithmetic on microseconds.
use libevent.Common.{ℕ, ◌+◌, ◌*◌, ◌^◌, ◌≤◌, ◌<◌, ◌≡◌, arith, ltb, leb, not}
use libevent.Timeval.Defs.{Timeval, timercmp_lt, timercmp_le, timeradd, timersub, IsNormal, usecs}

-- On normal times evutil_timercmp compares the microseconds since the origin, with < and with <=.
pub timercmp-usecs :
    (t u : Timeval)
    → IsNormal t
    → IsNormal u
    → (timercmp_lt t u ≡ ltb (usecs t) (usecs u)) × (timercmp_le t u ≡ leb (usecs t) (usecs u))
unfolding timercmp_lt timercmp_le
timercmp-usecs t u ht hu = ground arith

-- evutil_timeradd on normal times adds the microseconds and returns a normal time.
pub timeradd-usecs :
    (t u : Timeval)
    → IsNormal t
    → IsNormal u
    → (usecs (timeradd t u) ≡ usecs t + usecs u) × IsNormal (timeradd t u)
unfolding timeradd
timeradd-usecs t u ht hu = ground arith

-- evutil_timersub on normal times, the second not later, subtracts the microseconds and returns a
-- normal time.
pub timersub-usecs :
    (t u : Timeval)
    → IsNormal t
    → IsNormal u
    → usecs u ≤ usecs t
    → (usecs (timersub t u) + usecs u ≡ usecs t) × IsNormal (timersub t u)
unfolding timersub
timersub-usecs t u ht hu h = ground arith

-- The place of a time in the lexicographic order, for microseconds in the range of the C type.
abbrev pub rank : Timeval → ℕ
rank t = t.tv_sec * 2 ^ 63 + t.tv_usec

pub timercmp_lt-rank :
    (t u : Timeval)
    → t.tv_usec < 2 ^ 63
    → u.tv_usec < 2 ^ 63
    → timercmp_lt t u ≡ ltb (rank t) (rank u)
unfolding timercmp_lt
timercmp_lt-rank t u ht hu = ground arith

pub timercmp_le-not_lt : (t u : Timeval) → timercmp_le t u ≡ not (timercmp_lt u t)
unfolding timercmp_lt timercmp_le
timercmp_le-not_lt t u = ground arith
