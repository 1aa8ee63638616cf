-- ===== src/EventBase/Tests.antt =====
-- The theorems on the event base at concrete ones.
use libevent.Common.{◌≡◌, true, false, refl, some, none, [], arith, if◌then◌else◌, ◌==◌, total}
use libevent.Timeval.{Timeval, timerclear}
use libevent.Flags.{no_events, ev_timeout_only, evlist_init, Closure}
use libevent.MinHeap.{ctor}
use libevent.Evmap.{Env, initmap, io_waiting, signal_waiting}
use libevent.EventBase.State.{Event, EventBase, is_common_timeout}
use libevent.EventBase.Queues.{make_later_events_active}
use libevent.EventBase.Queues.Invariant.{IsQueued, make_later_events_active-IsQueued}
use libevent.EventBase.Timeouts.{insert_timeout, remove_timeout}
use libevent.EventBase.Timeouts.Invariant.{IsTimed, remove_timeout-IsTimed}
use libevent.EventBase.Timeouts.Insert.{insert_timeout-IsTimed}
use libevent.EventBase.Core.{
  event_add, event_del, event_active, event_active_later, event_deferred_cb_schedule,
  timeout_process, gettime, event_priority_set, event_callback_finalize, event_remove_timer,
}
use libevent.EventBase.Core.Base.{IsBase}
use libevent.EventBase.Core.AddTop.{Addable, event_add-IsBase, event_add-IsBase_untimed}
use libevent.EventBase.Core.Delete.{event_del-IsBase}
use libevent.EventBase.Core.Activate.{event_active-IsBase, event_active_later-IsBase}
use libevent.EventBase.Core.Assign.{event_priority_set-IsBase}
use libevent.EventBase.Core.Cancel.{Finalized, event_callback_finalize-Finalized}
use libevent.EventBase.Core.Later.{
  ActivatedLater, event_active_later-ActivatedLater, Scheduled,
  event_deferred_cb_schedule-Scheduled,
}
use libevent.EventBase.Core.Timer.{event_remove_timer-IsBase}
use libevent.EventBase.Core.Expired.{IsSettled}
use libevent.EventBase.Core.Steps.{event_active-Step}
use libevent.EventBase.Core.Process.{Processed, timeout_process-Processed}

-- Memory is to be had, and the backend takes everything.
abbrev kind : Env
kind = record {
  realloc_ok = λ n. true;
  calloc_ok = λ n. true;
  accepts = λ calls c. true;
  debug_mode = false;
}

-- An event that waits to read from descriptor 3.
abbrev idle : Event
idle = record {
  ev_flags = evlist_init;
  ev_pri = 0;
  ev_closure = Closure.event;
  ev_fd = some 3;
  ev_events = record no_events { read = true };
  ev_res = no_events;
  ev_timeout = timerclear;
  ev_io_timeout = timerclear;
  ev_ncalls = 0;
  ev_pncalls = false;
}

-- A new base with two priorities, at second 10.
abbrev fresh : EventBase
fresh = record {
  events = λ e. idle;
  evmap = initmap;
  timeheap = ctor (λ e. none);
  common_timeout_queues = λ i. record { events = []; duration = timerclear; timeout_event = 1000 };
  n_common_timeouts = 0;
  activequeues = λ q. [];
  nactivequeues = 2;
  active_later_queue = [];
  event_count = 0;
  event_count_max = 0;
  event_count_active = 0;
  event_count_active_max = 0;
  event_continue = false;
  event_running_priority = none;
  n_deferreds_queued = 0;
  signal_ncalls = 0;
  tv_cache = none;
  clock = λ n. record { tv_sec = 10; tv_usec = 0 };
  aborted = false;
}

fresh-IsQueued : IsQueued fresh
unfolding total
fresh-IsQueued = record {
  queued = λ e q. refl;
  later = λ e. refl;
  exclusive = λ e. refl;
  pris = λ e. omega arith;
  counted = refl;
  fine = refl;
}

fresh-IsTimed : IsTimed fresh
unfolding is_common_timeout
fresh-IsTimed = record {
  heap = record {
    indexed = record {
      at = λ i h. absurd (omega arith);
      back = λ x i h. absurd (ground (arith, h));
    };
    ordered = λ c h k. absurd (omega arith);
    room = omega arith;
  };
  small = λ e. omega arith;
  in_heap = λ e. refl;
  in_common = λ e i. refl;
  ordered = λ i. tt;
  plain = λ i. refl;
  clock = record { cached = λ tv h. absurd (ground (arith, h)); read = λ n. omega arith };
  fine = refl;
}

fresh-IsBase : IsBase fresh
unfolding io_waiting signal_waiting
fresh-IsBase = record {
  queued = fresh-IsQueued;
  timed = fresh-IsTimed;
  mapped = record {
    evmap = record {
      io_inside = λ fd c h. absurd (ground (arith, h));
      entries = λ fd c h. absurd (ground (arith, h));
      sig_inside = λ sig c h. absurd (ground (arith, h));
    };
    io = λ e fd. ground arith;
    signal = λ e sig. ground arith;
    has_signal = λ e h. absurd (ground (arith, h));
    in_range = λ e fd at. ground (arith, at);
  };
}

abbrev two_seconds : Timeval
two_seconds = record { tv_sec = 2; tv_usec = 0 }

addable : Addable fresh 7 two_seconds false
addable = record {
  small = omega arith;
  internal = λ i h. absurd (ground (arith, h));
  room = λ h. absurd (ground (arith, h));
}

-- Event 7 waits two seconds for its descriptor.
abbrev waiting : EventBase
waiting = (event_add kind (λ n. true) fresh 7 (some two_seconds) false).0

waiting-IsBase : IsBase waiting
waiting-IsBase = event_add-IsBase kind (λ n. true) fresh 7 two_seconds false fresh-IsBase addable

event_add-IsBase_example : IsBase (event_add kind (λ n. true) fresh 7 (some two_seconds) false).0
event_add-IsBase_example =
    event_add-IsBase kind (λ n. true) fresh 7 two_seconds false fresh-IsBase addable

event_add-IsBase_untimed_example : IsBase (event_add kind (λ n. true) waiting 8 none false).0
event_add-IsBase_untimed_example =
    event_add-IsBase_untimed kind (λ n. true) waiting 8 false waiting-IsBase

event_remove_timer-IsBase_example : IsBase (event_remove_timer waiting 7)
event_remove_timer-IsBase_example = event_remove_timer-IsBase waiting 7 waiting-IsBase

event_del-IsBase_example : IsBase (event_del kind waiting 7 false).0
event_del-IsBase_example = event_del-IsBase kind waiting waiting-IsBase 7 false

event_priority_set-IsBase_example : IsBase (event_priority_set waiting 7 1).0
event_priority_set-IsBase_example = event_priority_set-IsBase waiting waiting-IsBase 7 1

-- Event 7 is active.
abbrev activated : EventBase
activated = event_active fresh 7 ev_timeout_only 1

event_callback_finalize-Finalized_example :
    Finalized activated 7 (event_callback_finalize kind activated 7)
event_callback_finalize-Finalized_example =
    event_callback_finalize-Finalized kind activated 7
      (event_active-IsBase fresh fresh-IsBase 7 ev_timeout_only 1)
      ((event_active-Step fresh 7 ev_timeout_only 1).finalizing 7)

event_active-IsBase_example : IsBase (event_active waiting 7 ev_timeout_only 1)
event_active-IsBase_example = event_active-IsBase waiting waiting-IsBase 7 ev_timeout_only 1

event_active_later-ActivatedLater_example :
    ActivatedLater waiting 7 ev_timeout_only (event_active_later waiting 7 ev_timeout_only)
event_active_later-ActivatedLater_example =
    event_active_later-ActivatedLater waiting 7 ev_timeout_only waiting-IsBase

event_deferred_cb_schedule-Scheduled_example :
    let (r, new) = event_deferred_cb_schedule waiting 9 in Scheduled waiting 9 r new
event_deferred_cb_schedule-Scheduled_example =
    event_deferred_cb_schedule-Scheduled waiting 9 waiting-IsBase

-- Event 7 is active, and 8 is to be.
abbrev later : EventBase
later = event_active_later (event_active fresh 7 ev_timeout_only 1) 8 ev_timeout_only

later-IsBase : IsBase later
later-IsBase =
    event_active_later-IsBase (event_active fresh 7 ev_timeout_only 1)
      (event_active-IsBase fresh fresh-IsBase 7 ev_timeout_only 1) 8 ev_timeout_only

make_later_events_active-IsQueued_example :
    IsQueued (make_later_events_active later)
    × ((make_later_events_active later).active_later_queue ≡ [])
make_later_events_active-IsQueued_example =
    make_later_events_active-IsQueued later later-IsBase.queued

-- Event 7 was due at second 4.
abbrev overdue : EventBase
overdue = record fresh {
  events = λ e.
      if e == 7
      then record idle {
        ev_flags = record evlist_init { timeout = true };
        ev_timeout = record { tv_sec = 4; tv_usec = 0 };
      }
      else idle;
  timeheap = record {
    p = λ i. 7;
    n = 1;
    a = 8;
    min_heap_idx = λ x. if x == 7 then some 0 else none;
  };
}

overdue-IsTimed : IsTimed overdue
unfolding is_common_timeout
overdue-IsTimed = record {
  heap = record {
    indexed = record { at = λ i h. ground arith; back = λ x i h. ground arith };
    ordered = λ c h k. absurd (omega arith);
    room = omega arith;
  };
  small = λ e. ground arith;
  in_heap = λ e. ground arith;
  in_common = λ e i. ground arith;
  ordered = λ i. tt;
  plain = λ i. refl;
  clock = record { cached = λ tv h. absurd (ground (arith, h)); read = λ n. omega arith };
  fine = refl;
}

overdue-IsBase : IsBase overdue
unfolding total io_waiting signal_waiting
overdue-IsBase = record {
  queued = record {
    queued = λ e q. ground arith;
    later = λ e. ground arith;
    exclusive = λ e. ground arith;
    pris = λ e. ground arith;
    counted = refl;
    fine = refl;
  };
  timed = overdue-IsTimed;
  mapped = record {
    evmap = record {
      io_inside = λ fd c h. absurd (ground (arith, h));
      entries = λ fd c h. absurd (ground (arith, h));
      sig_inside = λ sig c h. absurd (ground (arith, h));
    };
    io = λ e fd. ground arith;
    signal = λ e sig. ground arith;
    has_signal = λ e h. absurd (ground (arith, h));
    in_range = λ e fd at. ground (arith, at);
  };
}

overdue-IsSettled : IsSettled overdue
overdue-IsSettled x = ground arith

timeout_process-Processed_example :
    Processed overdue (timeout_process kind overdue) (gettime overdue).1
timeout_process-Processed_example =
    timeout_process-Processed kind overdue overdue-IsBase overdue-IsSettled

insert_timeout-IsTimed_example : IsTimed (insert_timeout (λ n. false) overdue 8)
insert_timeout-IsTimed_example =
    insert_timeout-IsTimed (λ n. false) overdue 8 overdue-IsTimed refl (λ h. omega arith)

remove_timeout-IsTimed_example : IsTimed (remove_timeout overdue 7)
remove_timeout-IsTimed_example = remove_timeout-IsTimed overdue overdue-IsTimed 7 refl
