-- ===== src/EventBase/State.antt =====
-- struct event, struct event_callback, struct common_timeout_list and struct event_base
-- (include/event2/event_struct.h, event-internal.h).
use libevent.Common.{
  ℕ, ◌+◌, ◌-◌, ◌/◌, ◌%◌, ◌^◌, ◌&&◌, Bool, true, List, Option, ◌==◌, ltb, if◌then◌else◌, update,
}
use libevent.Timeval.{Timeval}
use libevent.Flags.{What, EvFlags, Closure}
use libevent.MinHeap.{MinHeap}
use libevent.Evmap.{Evmap}

-- An event, with its event_callback. A bare callback is an event whose flag EVLIST_INIT is not set;
-- of it only the flags, the priority and the closure count. The index in the heap is kept by the heap.
-- `ev_pncalls` says that the pointer is set; what it points to is `signal_ncalls` of the base. In the
-- source ev_io_timeout shares its place with ev_ncalls and ev_pncalls: only events with the closure
-- event_persist, which wait for no signal, use the one, and only signal events the others.
pub record Event : Type 0 where
  pub ev_flags : EvFlags
  pub ev_pri : ℕ
  pub ev_closure : Closure
  pub ev_fd : Option ℕ
  pub ev_events : What
  pub ev_res : What
  pub ev_timeout : Timeval
  pub ev_io_timeout : Timeval
  pub ev_ncalls : ℕ
  pub ev_pncalls : Bool

pub record CommonTimeoutList : Type 0 where
  pub events : List ℕ
  pub duration : Timeval
  pub timeout_event : ℕ

-- `signal_ncalls` is the local ncalls of event_signal_closure; one such call runs at a time.
-- `clock` gives the readings of the monotonic timer that are still to come, and tv_cache is none where
-- the cached time is cleared. `aborted` says that an EVUTIL_ASSERT has failed or event_errx has ended
-- the process; then the rest of the state means nothing.
pub record EventBase : Type 0 where
  pub events : ℕ → Event
  pub evmap : Evmap
  pub timeheap : MinHeap
  pub common_timeout_queues : ℕ → CommonTimeoutList
  pub n_common_timeouts : ℕ
  pub activequeues : ℕ → List ℕ
  pub nactivequeues : ℕ
  pub active_later_queue : List ℕ
  pub event_count : ℕ
  pub event_count_max : ℕ
  pub event_count_active : ℕ
  pub event_count_active_max : ℕ
  pub event_continue : Bool
  pub event_running_priority : Option ℕ
  pub n_deferreds_queued : ℕ
  pub signal_ncalls : ℕ
  pub tv_cache : Option Timeval
  pub clock : ℕ → Timeval
  pub aborted : Bool

-- ev->f = ... for one event.
abbrev pub set_event : EventBase → ℕ → Event → EventBase
set_event b e ev = record b { events = update b.events e ev }

abbrev pub set_flags : EventBase → ℕ → EvFlags → EventBase
set_flags b e f = set_event b e (record (b.events e) { ev_flags = f })

abbrev pub flags_of : EventBase → ℕ → EvFlags
flags_of b e = (b.events e).ev_flags

-- The times by which the heap is ordered.
abbrev pub times : EventBase → ℕ → Timeval
times b e = (b.events e).ev_timeout

-- An EVUTIL_ASSERT that fails, or event_errx.
abbrev pub abort : EventBase → EventBase
abort b = record b { aborted = true }

abbrev pub max : ℕ → ℕ → ℕ
max a b = if ltb b a then a else b

-- DECR_EVENT_COUNT and INCR_EVENT_COUNT, which skip internal events.
abbrev pub decr_event_count : EventBase → EvFlags → EventBase
decr_event_count b f = record b {
  event_count = if f.internal then b.event_count else b.event_count - 1;
}

abbrev pub incr_event_count : EventBase → EvFlags → EventBase
incr_event_count b f =
    let n = if f.internal then b.event_count else b.event_count + 1 in
    record b { event_count = n; event_count_max = max b.event_count_max n }

-- is_common_timeout: bits 28 to 31 of the microseconds hold the magic number 5, bits 20 to 27 the
-- index of the queue, and the bits below them the microseconds themselves.
abbrev pub common_timeout_idx : Timeval → ℕ
common_timeout_idx tv = tv.tv_usec / 2 ^ 20 % 256

unfoldable pub is_common_timeout : EventBase → Timeval → Bool
is_common_timeout b tv =
    tv.tv_usec / 2 ^ 28 % 16 == 5 && ltb (common_timeout_idx tv) b.n_common_timeouts

-- tv_usec & MICROSECONDS_MASK
abbrev pub masked : Timeval → Timeval
masked tv = record tv { tv_usec = tv.tv_usec % 2 ^ 20 }
