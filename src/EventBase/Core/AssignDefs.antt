-- ===== src/EventBase/Core/AssignDefs.antt =====
-- event_assign, event_priority_set, event_pending and event_callback_finalize_nolock_ (event.c). A result
-- is true for the return value 0, and false for -1.
use libevent.Common.{ℕ, ◌/◌, ◌&&◌, ◌||◌, Bool, true, false, not, Option, leb, if◌then◌else◌}
use libevent.Timeval.{timerclear}
use libevent.MinHeap
use libevent.Flags.{
  What, no_events, is_io, what_or, what_and, ev_timeout_only, evlist_init, Closure,
}
use libevent.Evmap.{Env}
use libevent.EventBase.State.{EventBase, set_event, set_flags, flags_of}
use libevent.EventBase.Core.Defs.{event_del, event_callback_cancel, event_callback_activate}

-- The closure that event_assign chooses.
abbrev pub closure_of : What → Closure
closure_of w =
    if w.signal
    then Closure.event_signal
    else if w.persist
    then Closure.event_persist
    else Closure.event

-- event_assign, of an event that has not been added; the callback and its argument are not modelled.
-- Where the events do not go together it ends before the closure, the heap and the priority.
unfoldable pub event_assign : EventBase → ℕ → Option ℕ → What → EventBase × Bool
event_assign b e fd w =
    let ev = b.events e in
    let named = record ev {
      ev_fd = fd;
      ev_events = w;
      ev_res = no_events;
      ev_flags = evlist_init;
      ev_ncalls = 0;
      ev_pncalls = false;
    } in
    let closed = record named {
      ev_closure = closure_of w;
      ev_io_timeout = if w.persist && not w.signal then timerclear else ev.ev_io_timeout;
      ev_pri = b.nactivequeues / 2;
    } in
    if w.signal && is_io w
    then (set_event b e named, false)
    else (record (set_event b e closed) { timeheap = MinHeap.elem_init b.timeheap e }, true)

-- event_priority_set, for a priority that is not negative.
unfoldable pub event_priority_set : EventBase → ℕ → ℕ → EventBase × Bool
event_priority_set b e pri =
    if (flags_of b e).active
    then (b, false)
    else if leb b.nactivequeues pri
    then (b, false)
    else (set_event b e (record (b.events e) { ev_pri = pri }), true)

abbrev no_flags : What
no_flags = no_events

-- event_pending, for a null pointer `tv`: the conditions asked for that the event waits for or is
-- active with.
unfoldable pub event_pending : EventBase → ℕ → What → What
event_pending b e event =
    let ev = b.events e in
    let f = ev.ev_flags in
    let w = ev.ev_events in
    let waiting = record no_flags {
      read = w.read;
      write = w.write;
      closed = w.closed;
      signal = w.signal;
    } in
    let a = if f.inserted then waiting else no_flags in
    let c = if f.active || f.active_later then what_or a ev.ev_res else a in
    let d = if f.timeout then what_or c ev_timeout_only else c in
    what_and d (record event { persist = false; et = false; finalize = false })

-- event_callback_finalize_nolock_
unfoldable pub event_callback_finalize : Env → EventBase → ℕ → EventBase
event_callback_finalize env b e =
    let stopped =
      if (flags_of b e).init
      then (event_del env b e false).0
      else (event_callback_cancel env b e false).0 in
    let closed =
      set_event stopped e (record (stopped.events e) { ev_closure = Closure.cb_finalize }) in
    let active = (event_callback_activate closed e).0 in
    set_flags active e (record (flags_of active e) { finalizing = true })
