-- ===== src/EventBase/Core/Later.antt =====
-- event_active_later_nolock_ and event_deferred_cb_schedule_: what becomes active, when, and what is
-- counted.
use libevent.Common.{
  ℕ, ◌+◌, ◌≡◌, ◌≢◌, ◌<◌, ◌&&◌, ◌||◌, Bool, false, not, [], ◌∷◌, ◌++◌, arith, ltb, if◌then◌else◌,
}
use libevent.Flags.{What, what_or}
use libevent.EventBase.State.{EventBase, flags_of}
use libevent.EventBase.Queues.{insert_active, insert_active_later, remove_active_later}
use libevent.EventBase.Core.Defs.{
  event_callback_activate, event_callback_activate_later, event_active_later,
  event_deferred_cb_schedule,
}
use libevent.EventBase.Core.Base.{IsBase}
use libevent.EventBase.Core.Activate.{event_active_later-IsBase, event_deferred_cb_schedule-IsBase}

-- Whether a callback is active or to be active later.
abbrev pub is_pending : EventBase → ℕ → Bool
is_pending b e = (flags_of b e).active || (flags_of b e).active_later

-- What event_active_later_nolock_ promises.
pub record ActivatedLater (b : EventBase) (e : ℕ) (res : What) (r : EventBase) : Type 0 where
  pub valid : IsBase r
  pub result :
      (r.events e).ev_res ≡ (if is_pending b e then what_or (b.events e).ev_res res else res)
  pub active : (flags_of r e).active ≡ (flags_of b e).active
  pub active_later : (flags_of r e).active_later ≡ not (flags_of b e).active
  pub queue :
      r.active_later_queue
      ≡ (if is_pending b e then b.active_later_queue else b.active_later_queue ++ e ∷ [])
  pub others : (x : ℕ) → e ≢ x → r.events x ≡ b.events x

-- event_active_later_nolock_ of any event on a base that is right, which it stays: an event that is
-- active or to be active later gets the new results beside the old ones, and any other gets the new
-- ones only and goes to the end of the later queue; all other events are as before.
pub event_active_later-ActivatedLater :
    (b : EventBase) (e : ℕ) (res : What)
    → IsBase b
    → ActivatedLater b e res (event_active_later b e res)
unfolding event_active_later event_callback_activate_later insert_active_later
event_active_later-ActivatedLater b e res v =
    let inside = v.queued.pris e in
    let one = v.queued.exclusive e in
    record {
      valid = event_active_later-IsBase b v e res;
      result = ground (arith, inside, one);
      active = ground (arith, inside, one);
      active_later = ground (arith, inside, one);
      queue = ground (arith, inside, one);
      others = λ x ne. ground (arith, inside, one);
    }

-- More callbacks than MAX_DEFERREDS_QUEUED are active.
abbrev pub is_crowded : EventBase → Bool
is_crowded b = ltb 32 b.n_deferreds_queued

-- What event_deferred_cb_schedule_ promises, with its return value.
pub record Scheduled (b : EventBase) (e : ℕ) (r : EventBase) (new : Bool) : Type 0 where
  pub valid : IsBase r
  pub is_new : new ≡ (not (is_pending b e) && (is_crowded b || not (flags_of b e).finalizing))
  pub active :
      (flags_of r e).active
      ≡ ((flags_of b e).active || (not (is_crowded b) && not (flags_of b e).finalizing))
  pub active_later : (flags_of r e).active_later ≡ (
      if is_crowded b
      then not (flags_of b e).active
      else (flags_of b e).active_later && (flags_of b e).finalizing)
  pub number :
      r.n_deferreds_queued
      ≡ (if new && not (is_crowded b) then b.n_deferreds_queued + 1 else b.n_deferreds_queued)
  pub others : (x : ℕ) → e ≢ x → r.events x ≡ b.events x

module _ (b : EventBase) (e : ℕ)
    (one : ((flags_of b e).active && (flags_of b e).active_later) ≡ false) where
  -- What event_callback_activate_nolock_ does to the callback.
  record Activated (r : EventBase) (new : Bool) : Type 0 where
    is_new : new ≡ (not (is_pending b e) && not (flags_of b e).finalizing)
    active : (flags_of r e).active ≡ ((flags_of b e).active || not (flags_of b e).finalizing)
    active_later :
        (flags_of r e).active_later ≡ ((flags_of b e).active_later && (flags_of b e).finalizing)
    number : r.n_deferreds_queued ≡ b.n_deferreds_queued
    others : (x : ℕ) → e ≢ x → r.events x ≡ b.events x

  activate-Activated :
      (b.events e).ev_pri < b.nactivequeues
      → let (r, new) = event_callback_activate b e in Activated r new
  unfolding event_callback_activate insert_active remove_active_later
  activate-Activated inside = record {
    is_new = ground (arith, one);
    active = ground (arith, one);
    active_later = ground (arith, one);
    number = ground (arith, one);
    others = λ x ne. ground (arith, one);
  }

  -- What event_callback_activate_later_nolock_ does to it.
  record Deferred (r : EventBase) (new : Bool) : Type 0 where
    is_new : new ≡ not (is_pending b e)
    active : (flags_of r e).active ≡ (flags_of b e).active
    active_later : (flags_of r e).active_later ≡ not (flags_of b e).active
    number : r.n_deferreds_queued ≡ b.n_deferreds_queued
    others : (x : ℕ) → e ≢ x → r.events x ≡ b.events x

  later-Deferred :
      (b.events e).ev_pri < b.nactivequeues
      → let (r, new) = event_callback_activate_later b e in Deferred r new
  unfolding event_callback_activate_later insert_active_later
  later-Deferred inside = record {
    is_new = ground (arith, one);
    active = ground (arith, inside, one);
    active_later = ground (arith, inside, one);
    number = ground (arith, inside, one);
    others = λ x ne. ground (arith, inside, one);
  }

-- event_deferred_cb_schedule_ of any callback on a base that is right, which it stays. While at most 32
-- callbacks have been counted the callback becomes active, also where it was to be active later, if
-- it is not being finalized, and it is counted if it is new; with more of them it goes to the later
-- queue if it is neither active nor there, and the count stays. It returns whether the callback is new,
-- and all other callbacks are as before.
pub event_deferred_cb_schedule-Scheduled :
    (b : EventBase) (e : ℕ)
    → IsBase b
    → let (r, new) = event_deferred_cb_schedule b e in Scheduled b e r new
unfolding event_deferred_cb_schedule
event_deferred_cb_schedule-Scheduled b e v =
    let a = activate-Activated b e (v.queued.exclusive e) (v.queued.pris e) in
    let d = later-Deferred b e (v.queued.exclusive e) (v.queued.pris e) in
    let valid = event_deferred_cb_schedule-IsBase b v e in
    record {
      valid = valid;
      is_new = ground (arith, a.is_new, d.is_new);
      active = ground (arith, a.active, d.active);
      active_later = ground (arith, a.active_later, d.active_later);
      number = ground (arith, a.number, d.number);
      others = λ x ne. ground (arith, a.others x ne, d.others x ne);
    }
