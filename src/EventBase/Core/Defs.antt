-- ===== src/EventBase/Core/Defs.antt =====
-- event_add_nolock_, event_del_nolock_, event_active_nolock_ and the operations around them (event.c),
-- in the thread that runs the loop: no condition is waited for and nobody is notified.
-- A result is true for the return value 0, and false for -1.
use libevent.Common.{ℕ, ◌+◌, ◌&&◌, ◌||◌, Bool, true, false, not, none, some, ltb, if◌then◌else◌}
use libevent.Timeval.{Timeval, timerclear}
use libevent.Flags.{What, is_io, what_or}
use libevent.Evmap.{
  Env, Evmap, EvmapResult, evmap_io_add, evmap_io_del, evmap_signal_add, evmap_signal_del,
}
use libevent.EventBase.State.{
  Event, EventBase, set_event, set_flags, flags_of, abort, decr_event_count, incr_event_count,
}
use libevent.EventBase.Queues.{
  insert_active, remove_active, insert_active_later, remove_active_later,
}
use libevent.EventBase.Timeouts.{remove_timeout}

-- The ev_events of every event.
abbrev pub wants : EventBase → ℕ → What
wants b e = (b.events e).ev_events

-- gettime: the cached time, or the next reading of the clock.
unfoldable pub gettime : EventBase → EventBase × Timeval
gettime b = elim b.tv_cache [
  | some tv ↦ (b, tv)
  | none ↦ (record b { clock = λ n. b.clock (n + 1) }, b.clock 0)
]

-- event_queue_insert_inserted
unfoldable pub insert_inserted : EventBase → ℕ → EventBase
insert_inserted b e =
    let f = flags_of b e in
    if f.inserted
    then abort b
    else set_flags (incr_event_count b f) e (record f { inserted = true })

-- event_queue_remove_inserted
unfoldable pub remove_inserted : EventBase → ℕ → EventBase
remove_inserted b e =
    let f = flags_of b e in
    if f.inserted
    then set_flags (decr_event_count b f) e (record f { inserted = false })
    else abort b

-- *ev->ev_pncalls = 0, for a signal event whose callback is being called in a loop.
unfoldable pub abort_loop : EventBase → ℕ → EventBase
abort_loop b e =
    let ev = b.events e in
    if ev.ev_events.signal && ltb 0 ev.ev_ncalls && ev.ev_pncalls
    then record b { signal_ncalls = 0 }
    else b

-- What becomes of a result of the evmap: both 0 and 1 give 0, since nobody needs to be notified.
unfoldable pub from_evmap : EventBase → Evmap × EvmapResult → EventBase × Bool
from_evmap b out =
    let b' = record b { evmap = out.0 } in
    elim out.1 [
      | EvmapResult.fault ↦ (abort b', true)
      | EvmapResult.failed ↦ (b', false)
      | EvmapResult.same ↦ (b', true)
      | EvmapResult.changed ↦ (b', true)
    ]

-- The parts of event_del_nolock_ and event_add_nolock_ that are conditional on one flag.
unfoldable pub drop_timeout : EventBase → ℕ → EventBase
drop_timeout b e = if (flags_of b e).timeout then remove_timeout b e else b

unfoldable pub drop_active : EventBase → ℕ → EventBase
drop_active b e =
    if (flags_of b e).active
    then remove_active b e
    else if (flags_of b e).active_later
    then remove_active_later b e
    else b

-- event_remove_timer_nolock_. The interval shares its place with ev_ncalls and ev_pncalls.
unfoldable pub event_remove_timer : EventBase → ℕ → EventBase
event_remove_timer b e =
    let b' = remove_timeout b e in
    if (flags_of b e).timeout
    then set_event b' e
        (record (b'.events e) { ev_io_timeout = timerclear; ev_ncalls = 0; ev_pncalls = false })
    else b

module _ (env : Env) where
  -- evmap_io_del_ or evmap_signal_del_. A signal event without a descriptor would be looked up in
  -- front of the array.
  unfoldable pub evmap_del : EventBase → ℕ → EventBase × Bool
  evmap_del b e =
      let ev = b.events e in
      if is_io ev.ev_events
      then from_evmap b (evmap_io_del env (wants b) b.evmap ev.ev_fd e)
      else elim ev.ev_fd [
        | none ↦ (abort b, true)
        | some sig ↦ from_evmap b (evmap_signal_del env b.evmap sig e)
      ]

  -- The same for adding.
  unfoldable pub evmap_add : EventBase → ℕ → EventBase × Bool
  evmap_add b e =
      let ev = b.events e in
      if is_io ev.ev_events
      then from_evmap b (evmap_io_add env (wants b) b.evmap ev.ev_fd e)
      else elim ev.ev_fd [
        | none ↦ (abort b, true)
        | some sig ↦ from_evmap b (evmap_signal_add env b.evmap sig e)
      ]

  unfoldable pub drop_inserted : EventBase → ℕ → EventBase × Bool
  drop_inserted b e =
      if (flags_of b e).inserted then evmap_del (remove_inserted b e) e else (b, true)

  -- event_del_nolock_
  unfoldable pub event_del : EventBase → ℕ → Bool → EventBase × Bool
  event_del b e even_if_finalizing =
      if (flags_of b e).finalizing && not even_if_finalizing
      then (b, true)
      else drop_inserted (drop_active (drop_timeout (abort_loop b e) e) e) e

-- event_callback_activate_nolock_, with the return value.
unfoldable pub event_callback_activate : EventBase → ℕ → EventBase × Bool
event_callback_activate b e =
    let f = flags_of b e in
    if f.finalizing
    then (b, false)
    else if f.active && f.active_later
    then (insert_active (remove_active_later (abort b) e) e, false)
    else if f.active_later
    then (insert_active (remove_active_later b e) e, false)
    else if f.active
    then (b, false)
    else (insert_active b e, true)

-- event_callback_activate_later_nolock_
unfoldable pub event_callback_activate_later : EventBase → ℕ → EventBase × Bool
event_callback_activate_later b e =
    let f = flags_of b e in
    if f.active || f.active_later then (b, false) else (insert_active_later b e, true)

-- base->event_continue = 1 if the event has priority over the running one.
abbrev pub interrupt : EventBase → ℕ → EventBase
interrupt b e = elim b.event_running_priority [
  | none ↦ b
  | some running ↦ if ltb (b.events e).ev_pri running then record b { event_continue = true } else b
]

-- ev->ev_res = res, and the calls of a signal event.
abbrev pub with_res : Event → What → Event
with_res ev res = record ev { ev_res = res }

abbrev pub with_calls : Event → ℕ → Event
with_calls ev ncalls =
    if ev.ev_events.signal then record ev { ev_ncalls = ncalls; ev_pncalls = false } else ev

-- event_active_nolock_
unfoldable pub event_active : EventBase → ℕ → What → ℕ → EventBase
event_active b e res ncalls =
    let ev = b.events e in
    let f = ev.ev_flags in
    let more = what_or ev.ev_res res in
    if f.finalizing
    then b
    else if f.active && f.active_later
    then abort b
    else if f.active
    then set_event b e (with_res ev more)
    else (let ev' = with_calls (with_res ev (if f.active_later then more else res)) ncalls in
        (event_callback_activate (set_event (interrupt b e) e ev') e).0)

-- event_active_later_nolock_
unfoldable pub event_active_later : EventBase → ℕ → What → EventBase
event_active_later b e res =
    let ev = b.events e in
    let f = ev.ev_flags in
    if f.active || f.active_later
    then set_event b e (with_res ev (what_or ev.ev_res res))
    else (event_callback_activate_later (set_event b e (with_res ev res)) e).0

module _ (env : Env) where
  -- event_callback_cancel_nolock_
  unfoldable pub event_callback_cancel : EventBase → ℕ → Bool → EventBase × Bool
  event_callback_cancel b e even_if_finalizing =
      let f = flags_of b e in
      if f.finalizing && not even_if_finalizing
      then (b, true)
      else if f.init
      then event_del env b e even_if_finalizing
      else if f.active && f.active_later
      then (abort b, true)
      else (drop_active b e, true)

-- event_deferred_cb_schedule_
unfoldable pub event_deferred_cb_schedule : EventBase → ℕ → EventBase × Bool
event_deferred_cb_schedule b e =
    let (b', r) = event_callback_activate b e in
    if ltb 32 b.n_deferreds_queued
    then event_callback_activate_later b e
    else if r
    then (record b' { n_deferreds_queued = b'.n_deferreds_queued + 1 }, r)
    else (b', r)
