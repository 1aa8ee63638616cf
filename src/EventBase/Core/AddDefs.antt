-- ===== src/EventBase/Core/AddDefs.antt =====
-- event_add_nolock_ and the processing of the timeouts (event.c).
use libevent.Common.{
  ℕ, zero, suc, ◌+◌, ◌-◌, ◌%◌, ◌^◌, ◌&&◌, ◌||◌, Bool, true, false, not, List, [], ◌∷◌, Option, none,
  some, ◌==◌, if◌then◌else◌,
}
use libevent.Timeval.{Timeval, timerclear, timeradd, timersub, timercmp_gt, timercmp_le}
use libevent.MinHeap
use libevent.Flags.{is_io, ev_timeout_only, Closure}
use libevent.Evmap.{Env}
use libevent.EventBase.State.{
  EventBase, set_event, flags_of, times, abort, common_timeout_idx, is_common_timeout, masked,
}
use libevent.EventBase.Queues.{remove_active}
use libevent.EventBase.Timeouts.{insert_timeout}
use libevent.EventBase.Core.Defs.{
  gettime, insert_inserted, abort_loop, evmap_add, event_del, event_active, drop_timeout, wants,
}

abbrev is_persist : Closure → Bool
is_persist Closure.event_persist = true
is_persist _ = false

-- min_heap_reserve_ for one element more, if the event is to get a timeout and has none.
unfoldable pub reserve_timeout : (ℕ → Bool) → EventBase → ℕ → Option Timeval → EventBase × Bool
reserve_timeout heap_ok b e none = (b, true)
reserve_timeout heap_ok b e (some tv) =
    let (h, ok) = MinHeap.reserve heap_ok b.timeheap (1 + b.timeheap.n) in
    if (flags_of b e).timeout then (b, true) else (record b { timeheap = h }, ok)

-- The event enters the evmap, if it waits for a descriptor or a signal and is not there yet.
unfoldable pub add_inserted : Env → EventBase → ℕ → EventBase × Bool
add_inserted env b e =
    let f = flags_of b e in
    let w = wants b e in
    let (b', ok) = evmap_add env b e in
    if (is_io w || w.signal) && not (f.inserted || f.active || f.active_later)
    then if ok then (insert_inserted b' e, true) else (b', false)
    else (b, true)

-- A persistent event remembers its interval.
unfoldable pub remember : EventBase → ℕ → Timeval → Bool → EventBase
remember b e tv tv_is_absolute =
    let ev = b.events e in
    if is_persist ev.ev_closure && not tv_is_absolute
    then set_event b e (record ev { ev_io_timeout = tv })
    else b

-- An event that is active because of its timeout is so no longer.
unfoldable pub drop_expired : EventBase → ℕ → EventBase
drop_expired b e =
    if (flags_of b e).active && (b.events e).ev_res.timeout
    then remove_active (abort_loop b e) e
    else b

-- The time at which the event is due. Where `now` is normal, the sum has its microseconds below the
-- magic bits, and | is +.
unfoldable pub due : EventBase → Timeval → Timeval → Bool → Timeval
due b now tv tv_is_absolute =
    let t = timeradd now (masked tv) in
    if tv_is_absolute
    then tv
    else if is_common_timeout b tv
    then record t { tv_usec = t.tv_usec + (tv.tv_usec - tv.tv_usec % 2 ^ 20) }
    else timeradd now tv

abbrev pub set_due : EventBase → ℕ → Timeval → EventBase
set_due b e tv = set_event b e (record (b.events e) { ev_timeout = tv })

-- ev == TAILQ_FIRST(&ctl->events)
abbrev pub is_first : ℕ → List ℕ → Bool
is_first e [] = false
is_first e (x ∷ xs) = e == x

-- The timeout state: what event_add_nolock_ does once the event is in the evmap. `schedule` is
-- common_timeout_schedule.
unfoldable pub add_timeout :
    (ℕ → Bool) → (EventBase → ℕ → ℕ → EventBase) → EventBase → ℕ → Timeval → Bool → EventBase
add_timeout heap_ok schedule b e tv tv_is_absolute =
    let cleared = drop_expired (drop_timeout (remember b e tv tv_is_absolute) e) e in
    let (b', now) = gettime cleared in
    let common_timeout = is_common_timeout b' tv in
    let timed = insert_timeout heap_ok (set_due b' e (due b' now tv tv_is_absolute)) e in
    let i = common_timeout_idx (times timed e) in
    if common_timeout && is_first e (timed.common_timeout_queues i).events
    then schedule timed i e
    else timed

-- event_add_nolock_, for calls of itself that are so deep at most. It calls itself for the event of a
-- common timeout list, with a time that is no common timeout, so that 2 is enough.
unfoldable pub event_add_in :
    Env → (ℕ → Bool) → ℕ → EventBase → ℕ → Option Timeval → Bool → EventBase × Bool
event_add_in env heap_ok zero b e tv tv_is_absolute = (abort b, false)
event_add_in env heap_ok (suc depth) b e tv tv_is_absolute =
    let schedule = λ (b' : EventBase) (i head : ℕ).
      (event_add_in env heap_ok depth b' (b'.common_timeout_queues i).timeout_event
        (some (masked (times b' head))) true).0 in
    let (reserved, room) = reserve_timeout heap_ok b e tv in
    let (added, ok) = add_inserted env reserved e in
    if (flags_of b e).finalizing
    then (b, false)
    else if not room
    then (reserved, false)
    else if not ok
    then (added, false)
    else elim tv [
      | none ↦ (added, true)
      | some t ↦ (add_timeout heap_ok schedule added e t tv_is_absolute, true)
    ]

unfoldable pub event_add :
    Env → (ℕ → Bool) → EventBase → ℕ → Option Timeval → Bool → EventBase × Bool
event_add env heap_ok b e tv tv_is_absolute = event_add_in env heap_ok 2 b e tv tv_is_absolute

-- The loop of timeout_process, which deletes the event from the heap each time, so that as many rounds
-- as the heap has events are enough.
unfoldable pub expire : Env → ℕ → EventBase → Timeval → EventBase
expire env zero b now = b
expire env (suc fuel) b now = elim (MinHeap.top b.timeheap) [
  | none ↦ b
  | some ev ↦
      let rest =
        expire env fuel (event_active (event_del env b ev false).0 ev ev_timeout_only 1) now in
      if timercmp_gt (times b ev) now then b else rest
]

unfoldable pub timeout_process : Env → EventBase → EventBase
timeout_process env b =
    let (b', now) = gettime b in
    if MinHeap.is_empty b.timeheap then b else expire env b.timeheap.n b' now

-- timeout_next, for a *tv_p that is not a null pointer; none says that it has become one.
unfoldable pub timeout_next : EventBase → EventBase × Option Timeval
timeout_next b = elim (MinHeap.top b.timeheap) [
  | none ↦ (b, none)
  | some ev ↦
      let (b', now) = gettime b in
      (
        b',
        if timercmp_le (times b ev) now then some timerclear else some (timersub (times b ev) now),
      )
]
