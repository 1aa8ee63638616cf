-- ===== src/EventBase/Core/Cancel.antt =====
-- What event_del_nolock_, event_callback_cancel_nolock_ and event_callback_finalize_nolock_ do to the
-- flags of an event or a callback.
use libevent.Common.{
  ℕ, ◌≡◌, ◌≢◌, ◌&&◌, Bool, true, false, not, arith, if◌then◌else◌, Bool-cases, inl, inr,
}
use libevent.Flags.{Closure}
use libevent.Evmap.{Env}
use libevent.EventBase.State.{EventBase, flags_of, set_event}
use libevent.EventBase.Queues.{insert_active, remove_active_later}
use libevent.EventBase.Core.Defs.{event_del, event_callback_cancel, event_callback_activate}
use libevent.EventBase.Core.AssignDefs.{event_callback_finalize}
use libevent.EventBase.Core.Base.{IsBase}
use libevent.EventBase.Core.Assign.{event_callback_finalize-IsBase}
use libevent.EventBase.Core.Dropped.{Dropped, event_del-Dropped, cancelled-Dropped}

-- What event_callback_cancel_nolock_ promises.
pub record Cancelled (b : EventBase) (e : ℕ) (even_if_finalizing : Bool) (r : EventBase)
    : Type 0 where
  pub valid : IsBase r
  pub kept : ((flags_of b e).finalizing && not even_if_finalizing) ≡ true → r ≡ b
  pub dropped :
      ((flags_of b e).finalizing && not even_if_finalizing) ≡ false
      → Dropped b r e (flags_of b e).init true (flags_of b e).init

-- A callback that is neither active nor to be active later becomes active.
activate-idle :
    (b : EventBase) (e : ℕ)
    → (flags_of b e).finalizing ≡ false
    → (flags_of b e).active ≡ false
    → (flags_of b e).active_later ≡ false
    → ((flags_of (event_callback_activate b e).0 e).active ≡ true)
      × ((flags_of (event_callback_activate b e).0 e).active_later ≡ false)
      × ((flags_of (event_callback_activate b e).0 e).timeout ≡ (flags_of b e).timeout)
      × ((flags_of (event_callback_activate b e).0 e).inserted ≡ (flags_of b e).inserted)
unfolding event_callback_activate insert_active
activate-idle b e live idle never = (
  ground (arith, live, idle, never),
  ground (arith, live, idle, never),
  ground (arith, live, idle, never),
  ground (arith, live, idle, never),
)

activate-others :
    (b : EventBase) (e : ℕ)
    → ((event_callback_activate b e).0.events e).ev_closure ≡ (b.events e).ev_closure
unfolding event_callback_activate insert_active remove_active_later
activate-others b e = ground arith

activate-rest :
    (b : EventBase) (e x : ℕ) → e ≢ x → (event_callback_activate b e).0.events x ≡ b.events x
unfolding event_callback_activate insert_active remove_active_later
activate-rest b e x ne = ground arith

-- What event_callback_finalize_nolock_ promises of a callback that is not being finalized yet.
pub record Finalized (b : EventBase) (e : ℕ) (r : EventBase) : Type 0 where
  pub valid : IsBase r
  pub finalizing : (flags_of r e).finalizing ≡ true
  pub closure : (r.events e).ev_closure ≡ Closure.cb_finalize
  pub active : (flags_of r e).active ≡ true
  pub active_later : (flags_of r e).active_later ≡ false
  pub timeout : (flags_of r e).timeout ≡ ((flags_of b e).timeout && not (flags_of b e).init)
  pub inserted : (flags_of r e).inserted ≡ ((flags_of b e).inserted && not (flags_of b e).init)
  pub others : (x : ℕ) → e ≢ x → r.events x ≡ b.events x

module _ (env : Env) (b : EventBase) (e : ℕ) where
  abbrev stopped : EventBase
  stopped =
      if (flags_of b e).init
      then (event_del env b e false).0
      else (event_callback_cancel env b e false).0

  abbrev closed : EventBase
  closed = set_event stopped e (record (stopped.events e) { ev_closure = Closure.cb_finalize })

  abbrev running : EventBase
  running = (event_callback_activate closed e).0

  stopped-Dropped :
      ((flags_of b e).active && (flags_of b e).active_later) ≡ false
      → (flags_of b e).finalizing ≡ false
      → Dropped b stopped e (flags_of b e).init true (flags_of b e).init
  stopped-Dropped one live =
      let goes : ((flags_of b e).finalizing && true) ≡ false = ground (arith, live) in
      elim (Bool-cases (flags_of b e).init) [
        | inl is ↦ rw is (event_del-Dropped env b e false one goes)
        | inr bare ↦ let d = cancelled-Dropped env b e false one goes in rw bare (rw bare at d)
      ]

  -- event_callback_finalize_nolock_ of a callback or an event that is not being finalized yet, on a
  -- base that is right, which it stays: afterwards it is being finalized, it is active, and not to be
  -- active later, with the closure that calls its finalizer; if it is an event it waits for no time
  -- and is not in the evmap any longer, and all others are as before.
  pub event_callback_finalize-Finalized :
      IsBase b → (flags_of b e).finalizing ≡ false → Finalized b e (event_callback_finalize env b e)
  unfolding event_callback_finalize
  event_callback_finalize-Finalized v live =
      let d = stopped-Dropped (v.queued.exclusive e) live in
      let (on, never, timed, mapped) =
        activate-idle closed e (ground (arith, d.finalizing, live)) (ground (arith, d.active))
          (ground (arith, d.active_later)) in
      record {
        valid = event_callback_finalize-IsBase env b e v;
        finalizing = ground arith;
        closure = ground (arith, activate-others closed e);
        active = ground (arith, on);
        active_later = ground (arith, never);
        timeout = ground (arith, timed, d.timeout);
        inserted = ground (arith, mapped, d.inserted);
        others = λ x ne. ground (arith, activate-rest closed e x ne, d.others x ne);
      }
