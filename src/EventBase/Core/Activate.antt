-- ===== src/EventBase/Core/Activate.antt =====
-- Activating events and callbacks keeps an event base right.
use libevent.Common.{ℕ, ◌≡◌, ◌&&◌, Bool, false, not, ◌||◌, arith, refl, ltb, Bool-cases, inl, inr}
use libevent.Flags.{What, what_or}
use libevent.Evmap.{Env}
use libevent.EventBase.State.{Event, EventBase, flags_of, set_event}
use libevent.EventBase.Queues.{insert_active, insert_active_later, remove_active_later}
use libevent.EventBase.Queues.Invariant.{insert_active-IsQueued, insert_active_later-IsQueued}
use libevent.EventBase.Core.Defs.{
  event_callback_activate, event_callback_activate_later, interrupt, with_res, with_calls,
  event_active, event_active_later, event_callback_cancel, event_deferred_cb_schedule,
}
use libevent.EventBase.Core.Agree.{IsTimed-agree}
use libevent.EventBase.Core.Keeps.{insert_active-TimeoutsAgree, insert_active_later-TimeoutsAgree}
use libevent.EventBase.Core.Base.{
  IsBase, IsMapped-agree, insert_active-MapAgree, insert_active_later-MapAgree,
}
use libevent.EventBase.Core.Alike.{
  IsBase-Alike, SameEvent, set_event-Alike, IsBase-if, interrupted-IsBase, deferred-IsBase,
}
use libevent.EventBase.Core.Delete.{event_del-IsBase}
use libevent.EventBase.Core.Drop.{remove_active_later-IsBase, drop_active-IsBase}

module _ (b : EventBase) (v : IsBase b) (e : ℕ) where
  pub insert_active-IsBase : (flags_of b e).active_later ≡ false → IsBase (insert_active b e)
  insert_active-IsBase out = record {
    queued = insert_active-IsQueued b v.queued e out;
    timed = IsTimed-agree (insert_active-TimeoutsAgree b v.queued.fine e (v.queued.pris e)) v.timed;
    mapped = IsMapped-agree (insert_active-MapAgree b e) v.mapped;
  }

  pub insert_active_later-IsBase : IsBase (insert_active_later b e)
  insert_active_later-IsBase = record {
    queued = insert_active_later-IsQueued b v.queued e;
    timed =
        IsTimed-agree (insert_active_later-TimeoutsAgree b v.queued.fine e (v.queued.pris e))
          v.timed;
    mapped = IsMapped-agree (insert_active_later-MapAgree b e) v.mapped;
  }

not_later : (b : EventBase) (e : ℕ) → (flags_of (remove_active_later b e) e).active_later ≡ false
unfolding remove_active_later
not_later b e = ground arith

module _ (b : EventBase) (v : IsBase b) (e : ℕ) where
  -- event_callback_activate_nolock_ keeps the base right.
  pub event_callback_activate-IsBase : IsBase (event_callback_activate b e).0
  unfolding event_callback_activate
  event_callback_activate-IsBase = elim (Bool-cases (flags_of b e).active_later) [
    | inl later ↦
        let still : (flags_of b e).active ≡ false = ground (arith, v.queued.exclusive e, later) in
        let out = remove_active_later-IsBase b v e later in
        elim (Bool-cases (flags_of b e).finalizing) [
          | inl on ↦ rw on v
          | inr off ↦
              rw (off, later, still)
                (insert_active-IsBase (remove_active_later b e) out e (not_later b e))
        ]
    | inr later ↦ elim (Bool-cases (flags_of b e).finalizing) [
      | inl on ↦ rw on v
      | inr off ↦ elim (Bool-cases (flags_of b e).active) [
        | inl active ↦ rw (off, later, active) v
        | inr still ↦ rw (off, later, still) (insert_active-IsBase b v e later)
      ]
    ]
  ]

  pub event_callback_activate_later-IsBase : IsBase (event_callback_activate_later b e).0
  unfolding event_callback_activate_later
  event_callback_activate_later-IsBase =
      elim (Bool-cases ((flags_of b e).active || (flags_of b e).active_later)) [
        | inl on ↦ rw on v
        | inr off ↦ rw off (insert_active_later-IsBase b v e)
      ]

  interrupt-IsBase : IsBase (interrupt b e)
  interrupt-IsBase = interrupted-IsBase b v b.event_running_priority (b.events e).ev_pri

with_res-SameEvent : (ev : Event) (res : What) → SameEvent ev (with_res ev res)
with_res-SameEvent ev res = record {
  flags = refl;
  pri = refl;
  fd = refl;
  events = refl;
  timeout = refl;
}

with_calls-SameEvent :
    (ev : Event) (res : What) (n : ℕ) → SameEvent ev (with_calls (with_res ev res) n)
with_calls-SameEvent ev res n = record {
  flags = ground arith;
  pri = ground arith;
  fd = ground arith;
  events = ground arith;
  timeout = ground arith;
}

module _ (b : EventBase) (v : IsBase b) (e : ℕ) where
  with_res-IsBase : (res : What) → IsBase (set_event b e (with_res (b.events e) res))
  with_res-IsBase res =
      IsBase-Alike
        (set_event-Alike b v.queued.fine e (with_res (b.events e) res)
          (with_res-SameEvent (b.events e) res))
        v

  interrupted-event : (interrupt b e).events ≡ b.events
  interrupted-event = ground arith

  with_calls-IsBase :
      (res : What) (n : ℕ)
      → IsBase (set_event (interrupt b e) e (with_calls (with_res (b.events e) res) n))
  with_calls-IsBase res n =
      let w = interrupt-IsBase b v e in
      let ev = with_calls (with_res (b.events e) res) n in
      IsBase-Alike
        (set_event-Alike (interrupt b e) w.queued.fine e ev
          (rw interrupted-event (with_calls-SameEvent (b.events e) res n)))
        w

  -- event_active_nolock_ of any event keeps the base right, and no assertion fails.
  pub event_active-IsBase : (res : What) (ncalls : ℕ) → IsBase (event_active b e res ncalls)
  unfolding event_active
  event_active-IsBase res ncalls =
      IsBase-if (flags_of b e).finalizing (λ on. v)
        (λ off.
          IsBase-if ((flags_of b e).active && (flags_of b e).active_later)
            (λ both. absurd (ground (arith, v.queued.exclusive e, both)))
            (λ one.
              IsBase-if (flags_of b e).active
                (λ on. with_res-IsBase (what_or (b.events e).ev_res res))
                (λ still. event_callback_activate-IsBase _ (with_calls-IsBase _ ncalls) e)))

  -- event_active_later_nolock_ of any event keeps the base right.
  pub event_active_later-IsBase : (res : What) → IsBase (event_active_later b e res)
  unfolding event_active_later
  event_active_later-IsBase res =
      elim (Bool-cases ((flags_of b e).active || (flags_of b e).active_later)) [
        | inl on ↦ rw on (with_res-IsBase (what_or (b.events e).ev_res res))
        | inr off ↦ rw off (event_callback_activate_later-IsBase _ (with_res-IsBase res) e)
      ]

  -- event_callback_cancel_nolock_ of any callback or event keeps the base right.
  pub event_callback_cancel-IsBase :
      (env : Env) (even_if_finalizing : Bool)
      → IsBase (event_callback_cancel env b e even_if_finalizing).0
  unfolding event_callback_cancel
  event_callback_cancel-IsBase env even_if_finalizing =
      elim (Bool-cases ((flags_of b e).finalizing && not even_if_finalizing)) [
        | inl on ↦ rw on v
        | inr off ↦ elim (Bool-cases (flags_of b e).init) [
          | inl init ↦ rw (off, init) (event_del-IsBase env b v e even_if_finalizing)
          | inr bare ↦ rw (off, bare, v.queued.exclusive e) (drop_active-IsBase b v e)
        ]
      ]

  -- event_deferred_cb_schedule_ of any callback keeps the base right.
  pub event_deferred_cb_schedule-IsBase : IsBase (event_deferred_cb_schedule b e).0
  unfolding event_deferred_cb_schedule
  event_deferred_cb_schedule-IsBase =
      let w = event_callback_activate-IsBase b v e in
      elim (Bool-cases (ltb 32 b.n_deferreds_queued)) [
        | inl many ↦ rw many (event_callback_activate_later-IsBase b v e)
        | inr few ↦ elim (Bool-cases (event_callback_activate b e).1) [
          | inl new ↦ rw (few, new) (deferred-IsBase (event_callback_activate b e).0 w _)
          | inr old ↦ rw (few, old) w
        ]
      ]
