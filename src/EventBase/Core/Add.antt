-- ===== src/EventBase/Core/Add.antt =====
-- event_add_nolock_ keeps an event base right.
use libevent.Common.{ℕ, ◌≡◌, ◌<◌, ◌^◌, ◌&&◌, Bool, true, false, arith, refl, sym, ◌∙◌, ap}
use libevent.Timeval.{Timeval}
use libevent.EventBase.State.{EventBase, flags_of, times, common_timeout_idx, is_common_timeout}
use libevent.EventBase.Timeouts.{insert_timeout}
use libevent.EventBase.Timeouts.Invariant.{IsTimed}
use libevent.EventBase.Timeouts.Insert.{insert_timeout-IsTimed}
use libevent.EventBase.Core.Defs.{gettime, abort_loop, drop_timeout}
use libevent.EventBase.Core.AddDefs.{remember, drop_expired, due, set_due, add_timeout, is_first}
use libevent.EventBase.Core.Agree.{QueuesAgree, IsQueued-agree}
use libevent.EventBase.Core.Base.{IsBase, MapAgree, IsMapped-agree}
use libevent.EventBase.Core.Alike.{IsBase-Alike, IsBase-if, set_event-Alike, gettime-IsBase}
use libevent.EventBase.Core.Drop.{drop_timeout-IsBase, abort_loop-IsBase, remove_active-IsBase}
use libevent.EventBase.Core.Due.{set_due-IsBase, due_small, gettime-normal}
use libevent.EventBase.Core.Room.{
  Steady, Steady-trans, drop_timeout-Steady, drop_timeout-off, drop_expired-Steady,
  drop_expired-same, remember-Steady, remember-same, gettime-Steady, gettime-same, HasRoom,
  HasRoom-agree, drop_timeout-room,
}

-- event_queue_insert_timeout among all that a base is.
module _ (heap_ok : ℕ → Bool) (b : EventBase) (v : IsBase b) (e : ℕ)
    (off : (flags_of b e).timeout ≡ false) (room : b.timeheap.n < b.timeheap.a) where
  inserted-timed : IsTimed (insert_timeout heap_ok b e)
  inserted-timed = insert_timeout-IsTimed heap_ok b e v.timed off (λ _. room)

  inserted-queues : QueuesAgree b (insert_timeout heap_ok b e)
  unfolding insert_timeout
  inserted-queues = record {
    activequeues = λ q. ground (arith, off);
    later = ground (arith, off);
    nactivequeues = ground (arith, off);
    counted = ground (arith, off);
    active = λ x. ground (arith, off);
    active_later = λ x. ground (arith, off);
    pris = λ x. ground (arith, off);
    fine = inserted-timed.fine;
  }

  inserted-map : MapAgree b (insert_timeout heap_ok b e)
  unfolding insert_timeout
  inserted-map = record {
    evmap = ground (arith, off);
    wants = λ x. ground (arith, off);
    fd = λ x. ground (arith, off);
    inserted = λ x. ground (arith, off);
  }

  insert_timeout-IsBase : IsBase (insert_timeout heap_ok b e)
  insert_timeout-IsBase = record {
    queued = IsQueued-agree inserted-queues v.queued;
    timed = inserted-timed;
    mapped = IsMapped-agree inserted-map v.mapped;
  }

module _ (b : EventBase) (v : IsBase b) (e : ℕ) where
  remember-IsBase : (tv : Timeval) (abs : Bool) → IsBase (remember b e tv abs)
  unfolding remember
  remember-IsBase tv abs =
      IsBase-if _
        (λ _.
          IsBase-Alike
            (set_event-Alike b v.queued.fine e (record (b.events e) { ev_io_timeout = tv })
              (record { flags = refl; pri = refl; fd = refl; events = refl; timeout = refl }))
            v)
        (λ _. v)

  still_active : (flags_of b e).active ≡ true → (flags_of (abort_loop b e) e).active ≡ true
  unfolding abort_loop
  still_active h = ground (arith, h)

  drop_expired-IsBase : IsBase (drop_expired b e)
  unfolding drop_expired
  drop_expired-IsBase =
      IsBase-if _
        (λ h.
          remove_active-IsBase (abort_loop b e) (abort_loop-IsBase b v e) e
            (still_active (ground (arith, h))))
        (λ _. v)

module _ (heap_ok : ℕ → Bool) (schedule : EventBase → ℕ → ℕ → EventBase) (b : EventBase)
    (v : IsBase b) (e : ℕ) (tv : Timeval) (abs : Bool) (room : HasRoom b e)
    (small : tv.tv_usec < 2 ^ 31)
    (internal : (i : ℕ)
      → (b.common_timeout_queues i).timeout_event ≡ e
      → (abs ≡ true) × (is_common_timeout b tv ≡ false))
    (scheduled : is_common_timeout b tv ≡ true
      → (r : EventBase) (i : ℕ) → IsBase r
      → IsBase (schedule r i e)) where
  abbrev kept : EventBase
  kept = remember b e tv abs

  abbrev stopped : EventBase
  stopped = drop_timeout kept e

  abbrev cleared : EventBase
  cleared = drop_expired stopped e

  abbrev timely : EventBase
  timely = (gettime cleared).0

  steady : Steady b timely
  steady = Steady-trans (remember-Steady b e tv abs) (
      Steady-trans (drop_timeout-Steady kept e)
        (Steady-trans (drop_expired-Steady stopped e) (gettime-Steady cleared)))

  kept-IsBase : IsBase kept
  kept-IsBase = remember-IsBase b v e tv abs

  cleared-IsBase : IsBase cleared
  cleared-IsBase = drop_expired-IsBase stopped (drop_timeout-IsBase kept kept-IsBase e) e

  timely-off : (flags_of timely e).timeout ≡ false
  timely-off =
      (gettime-same cleared e).0 ∙ (drop_expired-same stopped e).0 ∙ drop_timeout-off kept e

  timely-room : timely.timeheap.n < timely.timeheap.a
  timely-room =
      let (f, h, t) = remember-same b e tv abs in
      let kept-room = HasRoom-agree b kept e f t (remember-Steady b e tv abs).number h room in
      rw ((gettime-same cleared e).1, (drop_expired-same stopped e).1)
        (drop_timeout-room kept e kept-IsBase kept-room)

  same_common : (t : Timeval) → is_common_timeout timely t ≡ is_common_timeout b t
  unfolding is_common_timeout
  same_common t = rw steady.number refl

  abbrev now_due : Timeval
  now_due = due timely (gettime cleared).1 tv abs

  due_absolute : abs ≡ true → now_due ≡ tv
  unfolding due
  due_absolute h = ground (arith, h)

  due_plain :
      (i : ℕ)
      → (timely.common_timeout_queues i).timeout_event ≡ e
      → is_common_timeout timely now_due ≡ false
  due_plain i h =
      let (absolute, plain) = internal i (sym (steady.owners i) ∙ h) in
      ap (is_common_timeout timely) (due_absolute absolute) ∙ same_common tv ∙ plain

  dated-IsBase : IsBase (set_due timely e now_due)
  dated-IsBase =
      set_due-IsBase timely (gettime-IsBase cleared cleared-IsBase) e timely-off now_due
        (due_small timely (gettime cleared).1 tv abs
          (gettime-normal cleared cleared-IsBase.timed.clock) small)
        due_plain

  dated-off : (flags_of (set_due timely e now_due) e).timeout ≡ false
  dated-off = ground (arith, timely-off)

  abbrev timed : EventBase
  timed = insert_timeout heap_ok (set_due timely e now_due) e

  abbrev idx : ℕ
  idx = common_timeout_idx (times timed e)

  pub add_timeout-IsBase : IsBase (add_timeout heap_ok schedule b e tv abs)
  unfolding add_timeout
  add_timeout-IsBase =
      let done =
        insert_timeout-IsBase heap_ok (set_due timely e now_due) dated-IsBase e dated-off
          timely-room in
      IsBase-if (is_common_timeout timely tv && is_first e (timed.common_timeout_queues idx).events)
        (λ h.
          let common : is_common_timeout timely tv ≡ true = ground (arith, h) in
          scheduled (sym (same_common tv) ∙ common) timed idx done)
        (λ _. done)
