-- ===== src/EventBase/Core/Drop.antt =====
-- The steps of event_del_nolock_ that take an event out of its queues keep an event base right.
use libevent.Common.{ℕ, ◌≡◌, true, Bool-cases, inl, inr}
use libevent.EventBase.State.{EventBase, flags_of}
use libevent.EventBase.Queues.{remove_active, remove_active_later}
use libevent.EventBase.Queues.Invariant.{remove_active-IsQueued, remove_active_later-IsQueued}
use libevent.EventBase.Timeouts.{remove_timeout}
use libevent.EventBase.Timeouts.Invariant.{remove_timeout-IsTimed}
use libevent.EventBase.Core.Defs.{abort_loop, drop_timeout, drop_active}
use libevent.EventBase.Core.Agree.{IsQueued-agree, IsTimed-agree}
use libevent.EventBase.Core.Keeps.{
  remove_timeout-QueuesAgree, remove_active-TimeoutsAgree, remove_active_later-TimeoutsAgree,
  abort_loop-QueuesAgree, abort_loop-TimeoutsAgree,
}
use libevent.EventBase.Core.Base.{
  IsBase, IsMapped-agree, remove_timeout-MapAgree, remove_active-MapAgree,
  remove_active_later-MapAgree, abort_loop-MapAgree,
}

module _ (b : EventBase) (v : IsBase b) (e : ℕ) where
  pub abort_loop-IsBase : IsBase (abort_loop b e)
  abort_loop-IsBase = record {
    queued = IsQueued-agree (abort_loop-QueuesAgree b v.queued.fine e) v.queued;
    timed = IsTimed-agree (abort_loop-TimeoutsAgree b v.queued.fine e) v.timed;
    mapped = IsMapped-agree (abort_loop-MapAgree b e) v.mapped;
  }

  pub remove_timeout-IsBase : (flags_of b e).timeout ≡ true → IsBase (remove_timeout b e)
  remove_timeout-IsBase on = record {
    queued = IsQueued-agree (remove_timeout-QueuesAgree b v.queued.fine e on) v.queued;
    timed = remove_timeout-IsTimed b v.timed e on;
    mapped = IsMapped-agree (remove_timeout-MapAgree b e on) v.mapped;
  }

  pub remove_active-IsBase : (flags_of b e).active ≡ true → IsBase (remove_active b e)
  remove_active-IsBase on = record {
    queued = remove_active-IsQueued b v.queued e on;
    timed = IsTimed-agree (remove_active-TimeoutsAgree b v.queued.fine e on) v.timed;
    mapped = IsMapped-agree (remove_active-MapAgree b e) v.mapped;
  }

  pub remove_active_later-IsBase :
      (flags_of b e).active_later ≡ true → IsBase (remove_active_later b e)
  remove_active_later-IsBase on = record {
    queued = remove_active_later-IsQueued b v.queued e on;
    timed = IsTimed-agree (remove_active_later-TimeoutsAgree b v.queued.fine e on) v.timed;
    mapped = IsMapped-agree (remove_active_later-MapAgree b e) v.mapped;
  }

  pub drop_timeout-IsBase : IsBase (drop_timeout b e)
  unfolding drop_timeout
  drop_timeout-IsBase = elim (Bool-cases (flags_of b e).timeout) [
    | inl on ↦ rw on (remove_timeout-IsBase on)
    | inr off ↦ rw off v
  ]

  pub drop_active-IsBase : IsBase (drop_active b e)
  unfolding drop_active
  drop_active-IsBase = elim (Bool-cases (flags_of b e).active) [
    | inl on ↦ rw on (remove_active-IsBase on)
    | inr off ↦ rw off (elim (Bool-cases (flags_of b e).active_later) [
      | inl on ↦ rw on (remove_active_later-IsBase on)
      | inr out ↦ rw out v
    ])
  ]
