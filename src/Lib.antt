-- ===== src/Lib.antt =====
-- libevent: the event core, byte buffers and tagged data.
-- The program calls back when a descriptor is ready, a signal has come or a time is over. An event base
-- (event.c) keeps all events. It enters them into the map from descriptors and signals to events
-- (evmap.c), which asks the backend to watch what some event waits for; it keeps their timeouts in a
-- priority queue (minheap-internal.h) and in lists of equal timeouts; and it puts events whose time or
-- condition has come into queues of active callbacks, one for each priority, from which the loop takes
-- them. Byte buffers (buffer.c) are lists of chains of memory, to which programs add bytes at the end and
-- from which they take them at the start; event_tagging.c writes tagged data to them and reads it.
-- Files and what they model:
--   Timeval: the macros on struct timeval (include/event2/util.h).
--   MinHeap: min_heap_push_, min_heap_erase_ and so on (minheap-internal.h), named without the prefix and
--     the underscore. The array is a function, and the field min_heap_idx of all events another.
--   Flags: the bit sets EV_... (include/event2/event.h) and EVLIST_... (include/event2/event_struct.h) and
--     the closures (event-internal.h), as records of Booleans and a data type.
--   Evmap: evmap_io_add_, evmap_io_del_, evmap_signal_add_, evmap_signal_del_ and what evmap_io_active_ and
--     evmap_signal_active_ go through (evmap.c). The calls of the backend are a log with the answers.
--   EventBase/State: struct event, struct common_timeout_list and struct event_base
--     (include/event2/event_struct.h, event-internal.h). Events are numbers, and the base holds all of
--     them; callbacks without an event are events that are not initialized.
--   EventBase/Queues, EventBase/Timeouts: event_queue_insert_active and its kin,
--     event_queue_insert_timeout, insert_common_timeout_inorder and their kin (event.c).
--   EventBase/Core: event_add_nolock_, event_del_nolock_, event_active_nolock_, event_callback_activate_nolock_
--     and the like, event_assign, event_priority_set, timeout_process and timeout_next (event.c), named without event_queue_ and _nolock_.
--   TokenBucket: ev_token_bucket_update_ and the other functions on buckets (bufferevent_ratelim.c,
--     ratelim-internal.h), named without the last underscore.
--   Buffer/Defs: struct evbuffer_chain and struct evbuffer (evbuffer-internal.h), evbuffer_add,
--     evbuffer_prepend, evbuffer_drain, evbuffer_copyout_from, evbuffer_remove, evbuffer_pullup,
--     evbuffer_add_buffer, evbuffer_prepend_buffer and evbuffer_remove_buffer (buffer.c); static
--     functions and macros are named without the prefix, and parts of a function are definitions of their own. The chains are a list, a
--     pointer to a chain is its index, and a chain is kept with the bytes between misalign and
--     misalign + off. The other files under Buffer hold the invariant IsBuffer and a file for each
--     function, and Reach the buffers that calls of these functions come to.
--   Tagging/Codec: the bytes of tags and integers; Tagging/Calls: the functions on buffers (event_tagging.c).
--   Common: what the files share.
-- What the code does not decide is a parameter: whether memory is to be had, what the backend answers, and
-- the readings of the clock. A failed assertion or a call of event_errx sets `aborted` in the base, or is
-- the result `fault` of the evmap, and the theorems show that neither comes about. In a
-- buffer a failed assertion or a read of a missing chain clears `fine`, which the invariant excludes.
-- Fuel: the upward loop of the heap gets the index of the hole and the downward loop the number of
-- entries, since the hole moves to its parent or a child each time; the loop of timeout_process gets the
-- number of entries, each round taking one out; the doubling of the evmap gets the slot; event_add_nolock_
-- calls itself once at most, for the event of a common timeout list, whose time is not common.
-- The doubling of evbuffer_chain_new gets the size; the loops that write integers and tags get as many
-- rounds as 32 or 64 bits have groups of four or seven.
-- Integers: ev_uint16_t counts of the evmap are kept below 2^16 by the code's own check; an int that
-- overflows as a map grows is a `fault`, which descriptors and signals below 2^27 exclude; the size of the
-- heap is taken to fit its type; microseconds with the bits of a common timeout have 32
-- bits. A size_t of a buffer wraps around at 2^64 where the code does not check it, and
-- results that are ints keep their 32 bits, without the sign.
-- Not modelled: other threads (waiting for a callback that runs, and waking the loop), debug mode apart
-- from the test of EV_ET, the difference between the clocks in gettime, the loop itself with the callbacks
-- it calls, the creation of common timeouts, the changelist, the backends, buffered events but for their
-- token buckets, and the protocols above them; of the buffers, the pinning of chains, which only the
-- completion ports of Windows ask for, what callbacks do to the buffer that calls them, the counts of
-- references, the reservation of space, search, references and files.
pub mod Common
pub mod Timeval
pub mod MinHeap
pub mod Flags
pub mod Evmap
pub mod EventBase
pub mod TokenBucket
pub mod Buffer
pub mod Tagging
