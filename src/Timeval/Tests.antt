-- ===== src/Timeval/Tests.antt =====
-- The theorems on times at concrete ones.
use libevent.Common.{◌+◌, ◌≡◌, ltb, leb, arith}
use libevent.Timeval.Defs.{Timeval, timercmp_lt, timercmp_le, timeradd, timersub, IsNormal, usecs}
use libevent.Timeval.Laws.{timercmp-usecs, timeradd-usecs, timersub-usecs}

abbrev early : Timeval
early = record { tv_sec = 3; tv_usec = 999999 }

abbrev late : Timeval
late = record { tv_sec = 5; tv_usec = 2 }

early-IsNormal : IsNormal early
early-IsNormal = record { below = omega arith }

late-IsNormal : IsNormal late
late-IsNormal = record { below = omega arith }

timercmp-usecs_example :
    (timercmp_lt early late ≡ ltb (usecs early) (usecs late))
    × (timercmp_le early late ≡ leb (usecs early) (usecs late))
timercmp-usecs_example = timercmp-usecs early late early-IsNormal late-IsNormal

timeradd-usecs_example :
    (usecs (timeradd early late) ≡ usecs early + usecs late) × IsNormal (timeradd early late)
timeradd-usecs_example = timeradd-usecs early late early-IsNormal late-IsNormal

timersub-usecs_example :
    (usecs (timersub late early) + usecs early ≡ usecs late) × IsNormal (timersub late early)
timersub-usecs_example = timersub-usecs late early late-IsNormal early-IsNormal (omega arith)
