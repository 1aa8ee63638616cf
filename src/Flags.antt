-- ===== src/Flags.antt =====
-- The bit sets of an event as records of Booleans: EV_TIMEOUT and its kin of include/event2/event.h
-- (a `short`), the EVLIST_ states of include/event2/event_struct.h, and the closures of
-- event-internal.h.
use libevent.Common.{Bool, true, false, ◌||◌, ◌&&◌}

-- EV_TIMEOUT, EV_READ, EV_WRITE, EV_SIGNAL, EV_PERSIST, EV_ET, EV_FINALIZE, EV_CLOSED
pub record What : Type 0 where
  pub timeout : Bool
  pub read : Bool
  pub write : Bool
  pub signal : Bool
  pub persist : Bool
  pub et : Bool
  pub finalize : Bool
  pub closed : Bool

abbrev pub no_events : What
no_events = record {
  timeout = false;
  read = false;
  write = false;
  signal = false;
  persist = false;
  et = false;
  finalize = false;
  closed = false;
}

abbrev pub ev_timeout_only : What
ev_timeout_only = record no_events { timeout = true }

-- a | b
unfoldable pub what_or : What → What → What
what_or a b = record {
  timeout = a.timeout || b.timeout;
  read = a.read || b.read;
  write = a.write || b.write;
  signal = a.signal || b.signal;
  persist = a.persist || b.persist;
  et = a.et || b.et;
  finalize = a.finalize || b.finalize;
  closed = a.closed || b.closed;
}

-- a & b
unfoldable pub what_and : What → What → What
what_and a b = record {
  timeout = a.timeout && b.timeout;
  read = a.read && b.read;
  write = a.write && b.write;
  signal = a.signal && b.signal;
  persist = a.persist && b.persist;
  et = a.et && b.et;
  finalize = a.finalize && b.finalize;
  closed = a.closed && b.closed;
}

-- Whether any bit is set.
unfoldable pub what_any : What → Bool
what_any a =
    a.timeout || a.read || a.write || a.signal || a.persist || a.et || a.finalize || a.closed

-- events & (EV_READ|EV_WRITE|EV_CLOSED)
abbrev pub is_io : What → Bool
is_io w = w.read || w.write || w.closed

-- EVLIST_TIMEOUT, EVLIST_INSERTED, EVLIST_ACTIVE, EVLIST_INTERNAL, EVLIST_ACTIVE_LATER,
-- EVLIST_FINALIZING, EVLIST_INIT. (No code sets EVLIST_SIGNAL.)
pub record EvFlags : Type 0 where
  pub timeout : Bool
  pub inserted : Bool
  pub active : Bool
  pub internal : Bool
  pub active_later : Bool
  pub finalizing : Bool
  pub init : Bool

abbrev pub evlist_init : EvFlags
evlist_init = record {
  timeout = false;
  inserted = false;
  active = false;
  internal = false;
  active_later = false;
  finalizing = false;
  init = true;
}

-- EV_CLOSURE_EVENT, EV_CLOSURE_EVENT_SIGNAL, ...
pub data Closure : Type 0 where
  event event_signal event_persist cb_self cb_finalize event_finalize event_finalize_free : Closure
