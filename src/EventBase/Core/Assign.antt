-- ===== src/EventBase/Core/Assign.antt =====
-- Changing priorities and finalizing callbacks keep an event base right.
use libevent.Common.{ℕ, ◌≡◌, ◌<◌, true, false, arith, refl, if◌then◌else◌, leb}
use libevent.Flags.{Closure}
use libevent.Evmap.{Env}
use libevent.EventBase.State.{EventBase, flags_of, set_event, set_flags}
use libevent.EventBase.Core.Defs.{event_del, event_callback_cancel, event_callback_activate}
use libevent.EventBase.Core.AssignDefs.{event_priority_set, event_callback_finalize}
use libevent.EventBase.Core.Agree.{IsTimed-agree}
use libevent.EventBase.Core.Base.{IsBase, IsMapped-agree}
use libevent.EventBase.Core.Alike.{IsBase-Alike, IsBase-if, set_event-Alike, Alike}
use libevent.EventBase.Core.AddTop.{IsBase-result}
use libevent.EventBase.Core.Delete.{event_del-IsBase}
use libevent.EventBase.Core.Activate.{event_callback_cancel-IsBase, event_callback_activate-IsBase}

module _ (b : EventBase) (v : IsBase b) (e : ℕ) where
  module _ (pri : ℕ) (off : (flags_of b e).active ≡ false) (inside : pri < b.nactivequeues) where
    abbrev moved : EventBase
    moved = set_event b e (record (b.events e) { ev_pri = pri })

    moved-IsBase : IsBase moved
    moved-IsBase = record {
      queued = record {
        queued = λ x q. ground (arith, off, v.queued.queued x q);
        later = λ x. ground (arith, v.queued.later x);
        exclusive = λ x. ground (arith, v.queued.exclusive x);
        pris = λ x. ground (arith, inside, v.queued.pris x);
        counted = v.queued.counted;
        fine = v.queued.fine;
      };
      timed =
          IsTimed-agree
            (record {
              timeheap = refl;
              lists = λ i. refl;
              cache = refl;
              clock = λ h. h;
              number = refl;
              timeout = λ x. ground arith;
              times = λ x. ground arith;
              fine = v.timed.fine;
            })
            v.timed;
      mapped =
          IsMapped-agree
            (record {
              evmap = refl;
              wants = λ x. ground arith;
              fd = λ x. ground arith;
              inserted = λ x. ground arith;
            })
            v.mapped;
    }

  -- event_priority_set with any priority keeps the base right: it moves no event that stands in the
  -- queue of its priority, and sets no priority that has no queue.
  pub event_priority_set-IsBase : (pri : ℕ) → IsBase (event_priority_set b e pri).0
  unfolding event_priority_set
  event_priority_set-IsBase pri =
      let moved = set_event b e (record (b.events e) { ev_pri = pri }) in
      IsBase-result (flags_of b e).active (b, false)
        (if leb b.nactivequeues pri then (b, false) else (moved, true)) (λ _. v)
        (λ off.
          IsBase-result (leb b.nactivequeues pri) (b, false) (moved, true) (λ _. v)
            (λ inside. moved-IsBase pri off (ground (arith, inside))))

module _ (b : EventBase) (v : IsBase b) (e : ℕ) where
  stopped-IsBase :
      (env : Env)
      → IsBase (
          if (flags_of b e).init
          then (event_del env b e false).0
          else (event_callback_cancel env b e false).0)
  stopped-IsBase env =
      IsBase-if (flags_of b e).init (λ _. event_del-IsBase env b v e false)
        (λ _. event_callback_cancel-IsBase b v e env false)

  finalizing-Alike :
      b.aborted ≡ false → Alike b (set_flags b e (record (flags_of b e) { finalizing = true }))
  finalizing-Alike fine = record {
    queues = record {
      activequeues = λ q. refl;
      later = refl;
      nactivequeues = refl;
      counted = refl;
      active = λ x. ground arith;
      active_later = λ x. ground arith;
      pris = λ x. ground arith;
      fine = fine;
    };
    timeouts = record {
      timeheap = refl;
      lists = λ i. refl;
      cache = refl;
      clock = λ h. h;
      number = refl;
      timeout = λ x. ground arith;
      times = λ x. ground arith;
      fine = fine;
    };
    map = record {
      evmap = refl;
      wants = λ x. ground arith;
      fd = λ x. ground arith;
      inserted = λ x. ground arith;
    };
  }

-- event_callback_finalize_nolock_ of any callback or event keeps the base right, and no assertion fails.
pub event_callback_finalize-IsBase :
    (env : Env) (b : EventBase) (e : ℕ) → IsBase b → IsBase (event_callback_finalize env b e)
unfolding event_callback_finalize
event_callback_finalize-IsBase env b e v =
    let w = stopped-IsBase b v e env in
    let stopped =
      if (flags_of b e).init
      then (event_del env b e false).0
      else (event_callback_cancel env b e false).0 in
    let closed = record (stopped.events e) { ev_closure = Closure.cb_finalize } in
    let u =
      IsBase-Alike
        (set_event-Alike stopped w.queued.fine e closed
          (record { flags = refl; pri = refl; fd = refl; events = refl; timeout = refl }))
        w in
    let a = event_callback_activate-IsBase (set_event stopped e closed) u e in
    IsBase-Alike
      (finalizing-Alike (event_callback_activate (set_event stopped e closed) e).0 a e
        a.queued.fine)
      a
