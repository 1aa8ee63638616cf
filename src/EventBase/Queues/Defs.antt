-- ===== src/EventBase/Queues/Defs.antt =====
-- The queues of active callbacks (event.c: event_queue_insert_active and its kin).
use libevent.Common.{
  remove, ℕ, ◌+◌, ◌-◌, ◌||◌, Bool, true, false, not, List, [], ◌∷◌, ◌++◌, ltb, if◌then◌else◌,
  update,
}
use libevent.Flags.{Closure}
use libevent.EventBase.State.{
  EventBase, set_flags, flags_of, abort, max, decr_event_count, incr_event_count,
}

-- TAILQ_INSERT_TAIL on the queue of a priority, behind EVUTIL_ASSERT(evcb_pri < nactivequeues).
unfoldable pub enqueue : EventBase → ℕ → EventBase
enqueue b e =
    let q = (b.events e).ev_pri in
    if ltb q b.nactivequeues
    then record b { activequeues = update b.activequeues q (b.activequeues q ++ e ∷ []) }
    else abort b

-- base->event_count_active++, and its maximum.
abbrev count_up : EventBase → EventBase
count_up b = record b {
  event_count_active = b.event_count_active + 1;
  event_count_active_max = max b.event_count_active_max (b.event_count_active + 1);
}

-- event_queue_insert_active
unfoldable pub insert_active : EventBase → ℕ → EventBase
unfolding enqueue
insert_active b e =
    let f = flags_of b e in
    if f.active
    then b
    else enqueue (count_up (set_flags (incr_event_count b f) e (record f { active = true }))) e

-- event_queue_remove_active
unfoldable pub remove_active : EventBase → ℕ → EventBase
remove_active b e =
    let f = flags_of b e in
    let q = (b.events e).ev_pri in
    if not f.active
    then abort b
    else record (set_flags (decr_event_count b f) e (record f { active = false })) {
      event_count_active = b.event_count_active - 1;
      activequeues = update b.activequeues q (remove e (b.activequeues q));
    }

-- event_queue_insert_active_later
unfoldable pub insert_active_later : EventBase → ℕ → EventBase
insert_active_later b e =
    let f = flags_of b e in
    if f.active_later || f.active
    then b
    else (let b' =
          count_up (set_flags (incr_event_count b f) e (record f { active_later = true })) in
        if ltb (b.events e).ev_pri b.nactivequeues
        then record b' { active_later_queue = b.active_later_queue ++ e ∷ [] }
        else abort b')

-- event_queue_remove_active_later
unfoldable pub remove_active_later : EventBase → ℕ → EventBase
remove_active_later b e =
    let f = flags_of b e in
    if not f.active_later
    then abort b
    else record (set_flags (decr_event_count b f) e (record f { active_later = false })) {
      event_count_active = b.event_count_active - 1;
      active_later_queue = remove e b.active_later_queue;
    }

abbrev is_self : Closure → Bool
is_self Closure.cb_self = true
is_self _ = false

-- One round of event_queue_make_later_events_active: the first callback of the later queue, `e`, with
-- `rest` behind it.
unfoldable pub make_one_active : EventBase → ℕ → List ℕ → EventBase
unfolding enqueue
make_one_active b e rest =
    let f = flags_of b e in
    let b' =
      set_flags (record b { active_later_queue = rest }) e
        (record f { active_later = false; active = true }) in
    let queued = enqueue b' e in
    record queued {
      n_deferreds_queued =
          if is_self (b.events e).ev_closure
          then b.n_deferreds_queued + 1
          else b.n_deferreds_queued;
    }

-- event_queue_make_later_events_active: nothing in a round adds to the later queue, so the loop runs
-- over the queue as it stands.
unfoldable pub make_later_active : EventBase → List ℕ → EventBase
make_later_active b [] = b
make_later_active b (e ∷ rest) = make_later_active (make_one_active b e rest) rest

unfoldable pub make_later_events_active : EventBase → EventBase
make_later_events_active b = make_later_active b b.active_later_queue
