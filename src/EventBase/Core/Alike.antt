-- ===== src/EventBase/Core/Alike.antt =====
-- Changes of an event that no queue and no map is concerned with: its results, its calls, its interval.
use libevent.Common.{
  ℕ, ◌≡◌, ◌<◌, Bool, true, false, arith, refl, if◌then◌else◌, ltb, some, none, ◌+◌, Option,
}
use libevent.Timeval.{Timeval}
use libevent.EventBase.State.{Event, EventBase, set_event}
use libevent.EventBase.Core.Defs.{gettime}
use libevent.EventBase.Core.Agree.{QueuesAgree, TimeoutsAgree, IsQueued-agree, IsTimed-agree}
use libevent.EventBase.Core.Base.{IsBase, MapAgree, IsMapped-agree}

pub record Alike (b r : EventBase) : Type 0 where
  pub queues : QueuesAgree b r
  pub timeouts : TimeoutsAgree b r
  pub map : MapAgree b r

pub IsBase-Alike : {b r : EventBase} → Alike b r → IsBase b → IsBase r
IsBase-Alike h v = record {
  queued = IsQueued-agree h.queues v.queued;
  timed = IsTimed-agree h.timeouts v.timed;
  mapped = IsMapped-agree h.map v.mapped;
}

-- The parts of an event that count.
pub record SameEvent (ev ev' : Event) : Type 0 where
  pub flags : ev.ev_flags ≡ ev'.ev_flags
  pub pri : ev.ev_pri ≡ ev'.ev_pri
  pub fd : ev.ev_fd ≡ ev'.ev_fd
  pub events : ev.ev_events ≡ ev'.ev_events
  pub timeout : ev.ev_timeout ≡ ev'.ev_timeout

module _ (b : EventBase) (fine : b.aborted ≡ false) (e : ℕ) (ev : Event)
    (h : SameEvent (b.events e) ev) where
  pub set_event-Alike : Alike b (set_event b e ev)
  set_event-Alike = record {
    queues = record {
      activequeues = λ q. refl;
      later = refl;
      nactivequeues = refl;
      counted = refl;
      active = λ x. ground (arith, h.flags);
      active_later = λ x. ground (arith, h.flags);
      pris = λ x. ground (arith, h.pri);
      fine = fine;
    };
    timeouts = record {
      timeheap = refl;
      lists = λ i. refl;
      cache = refl;
      clock = λ h. h;
      number = refl;
      timeout = λ x. ground (arith, h.flags);
      times = λ x. ground (arith, h.timeout);
      fine = fine;
    };
    map = record {
      evmap = refl;
      wants = λ x. ground (arith, h.events);
      fd = λ x. ground (arith, h.fd);
      inserted = λ x. ground (arith, h.flags);
    };
  }

-- The base with other values of what no invariant reads.
unread-Alike :
    (b : EventBase) (continue : Bool) (clock : ℕ → Timeval) (deferreds : ℕ)
    → b.aborted ≡ false
    → ((n : ℕ) → (clock n).tv_usec < 1000000)
    → Alike b
        (record b { event_continue = continue; clock = clock; n_deferreds_queued = deferreds })
unread-Alike b continue clock deferreds fine fast = record {
  queues = record {
    activequeues = λ q. refl;
    later = refl;
    nactivequeues = refl;
    counted = refl;
    active = λ x. refl;
    active_later = λ x. refl;
    pris = λ x. refl;
    fine = fine;
  };
  timeouts = record {
    timeheap = refl;
    lists = λ i. refl;
    cache = refl;
    clock = λ h. fast;
    number = refl;
    timeout = λ x. refl;
    times = λ x. refl;
    fine = fine;
  };
  map = record { evmap = refl; wants = λ x. refl; fd = λ x. refl; inserted = λ x. refl };
}

-- A base that is one of two.
pub IsBase-if :
    (c : Bool) {x y : EventBase}
    → (c ≡ true → IsBase x)
    → (c ≡ false → IsBase y)
    → IsBase (if c then x else y)
IsBase-if true t f = t refl
IsBase-if false t f = f refl

module _ (b : EventBase) (v : IsBase b) where
  read_clock :
      (c : Option Timeval)
      → IsBase
          (elim c as (λ x. EventBase × Timeval) [
            | some tv ↦ (b, tv)
            | none ↦ (record b { clock = λ n. b.clock (n + 1) }, b.clock 0)
          ]).0
  read_clock none =
      IsBase-Alike
        (unread-Alike b b.event_continue (λ n. b.clock (n + 1)) b.n_deferreds_queued v.queued.fine
          (λ n. v.timed.clock.read (n + 1)))
        v
  read_clock (some tv) = v

  pub gettime-IsBase : IsBase (gettime b).0
  unfolding gettime
  gettime-IsBase = read_clock b.tv_cache

  pub continued-IsBase : (continue : Bool) → IsBase (record b { event_continue = continue })
  continued-IsBase continue =
      IsBase-Alike
        (unread-Alike b continue b.clock b.n_deferreds_queued v.queued.fine v.timed.clock.read) v

  pub interrupted-IsBase :
      (r : Option ℕ) (pri : ℕ)
      → IsBase (elim r as (λ x. EventBase) [
        | none ↦ b
        | some running ↦ if ltb pri running then record b { event_continue = true } else b
      ])
  interrupted-IsBase none pri = v
  interrupted-IsBase (some running) pri =
      IsBase-if (ltb pri running) (λ h. continued-IsBase true) (λ h. v)

  pub deferred-IsBase : (n : ℕ) → IsBase (record b { n_deferreds_queued = n })
  deferred-IsBase n =
      IsBase-Alike (unread-Alike b b.event_continue b.clock n v.queued.fine v.timed.clock.read) v
