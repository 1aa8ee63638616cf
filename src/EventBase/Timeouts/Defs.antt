-- ===== src/EventBase/Timeouts/Defs.antt =====
-- The queues of timeouts (event.c: event_queue_insert_timeout, event_queue_remove_timeout,
-- insert_common_timeout_inorder), without USE_REINSERT_TIMEOUT, which no file defines.
use libevent.Common.{
  ℕ, ◌/◌, ◌^◌, Bool, true, false, not, List, [], ◌∷◌, ◌==◌, if◌then◌else◌, update, remove,
}
use libevent.Timeval.{Timeval, timercmp_ge}
use libevent.MinHeap
use libevent.EventBase.State.{
  EventBase, set_flags, flags_of, times, abort, decr_event_count, incr_event_count,
  common_timeout_idx, is_common_timeout,
}

-- is_same_common_timeout: the bits above the microseconds agree.
abbrev pub is_same_common_timeout : Timeval → Timeval → Bool
is_same_common_timeout t u = t.tv_usec / 2 ^ 20 == u.tv_usec / 2 ^ 20

-- How the search from the end of a common timeout list goes on: the event has found its place and
-- this is the list, no place has been found so far, or an assertion has failed.
pub data Search : Type 0 where
  found : List ℕ → Search
  missing failed : Search

-- The visit of `e` in TAILQ_FOREACH_REVERSE, after what the search of `rest` behind it has come to.
unfoldable pub visit : (ℕ → Timeval) → ℕ → ℕ → List ℕ → Search → Search
visit tm ev e rest (Search.found l) = Search.found (e ∷ l)
visit tm ev e rest Search.failed = Search.failed
visit tm ev e rest Search.missing =
    if not (is_same_common_timeout (tm e) (tm ev))
    then Search.failed
    else if timercmp_ge (tm ev) (tm e)
    then Search.found (e ∷ ev ∷ rest)
    else Search.missing

-- TAILQ_FOREACH_REVERSE over the list: its later part is searched before the earlier one.
unfoldable pub search_back : (ℕ → Timeval) → ℕ → List ℕ → Search
search_back tm ev [] = Search.missing
search_back tm ev (e ∷ rest) = visit tm ev e rest (search_back tm ev rest)

abbrev pub set_common : EventBase → ℕ → List ℕ → EventBase
set_common b i l =
    let ctl = b.common_timeout_queues i in
    record b {
      common_timeout_queues = update b.common_timeout_queues i (record ctl { events = l });
    }

-- insert_common_timeout_inorder, for the times `tm` of the events.
unfoldable pub insert_common_timeout_inorder : (ℕ → Timeval) → EventBase → ℕ → ℕ → EventBase
insert_common_timeout_inorder tm b i ev =
    let l = (b.common_timeout_queues i).events in
    elim (search_back tm ev l) [
      | Search.found l' ↦ set_common b i l'
      | Search.missing ↦ set_common b i (ev ∷ l)
      | Search.failed ↦ abort b
    ]

-- event_queue_insert_timeout; the result of min_heap_push_ is not looked at.
unfoldable pub insert_timeout : (ℕ → Bool) → EventBase → ℕ → EventBase
unfolding insert_common_timeout_inorder
insert_timeout realloc_ok b e =
    let f = flags_of b e in
    let tv = times b e in
    let b' = set_flags (incr_event_count b f) e (record f { timeout = true }) in
    if f.timeout
    then abort b
    else if is_common_timeout b tv
    then insert_common_timeout_inorder (times b) b' (common_timeout_idx tv) e
    else record b' { timeheap = (MinHeap.push (times b) realloc_ok b.timeheap e).0 }

-- event_queue_remove_timeout; the result of min_heap_erase_ is not looked at.
unfoldable pub remove_timeout : EventBase → ℕ → EventBase
remove_timeout b e =
    let f = flags_of b e in
    let tv = times b e in
    let i = common_timeout_idx tv in
    let b' = set_flags (decr_event_count b f) e (record f { timeout = false }) in
    if not f.timeout
    then abort b
    else if is_common_timeout b tv
    then set_common b' i (remove e (b.common_timeout_queues i).events)
    else record b' { timeheap = (MinHeap.erase (times b) b.timeheap e).0 }
