-- ===== src/EventBase/Core/Steps.antt =====
-- What an operation on one event leaves of the timeouts, and of the other events.
use libevent.Common.{ℕ, ◌≡◌, ◌≢◌, ◌&&◌, Bool, true, false, arith, refl, ◌∙◌, if◌then◌else◌}
use libevent.Flags.{What, what_or}
use libevent.Evmap.{Env}
use libevent.EventBase.State.{Event, EventBase, flags_of, times, set_event, abort}
use libevent.EventBase.Queues.{insert_active, remove_active, remove_active_later}
use libevent.EventBase.Core.Defs.{
  abort_loop, drop_active, drop_inserted, remove_inserted, evmap_del, from_evmap,
  event_callback_activate, event_active, interrupt, with_calls, with_res,
}

pub record Step (b r : EventBase) (e : ℕ) : Type 0 where
  pub heap : r.timeheap ≡ b.timeheap
  pub timeout : (x : ℕ) → (flags_of r x).timeout ≡ (flags_of b x).timeout
  pub finalizing : (x : ℕ) → (flags_of r x).finalizing ≡ (flags_of b x).finalizing
  pub times : (x : ℕ) → times r x ≡ times b x
  pub active : (x : ℕ) → e ≢ x → (flags_of r x).active ≡ (flags_of b x).active

pub Step-trans : {a b c : EventBase} {e : ℕ} → Step a b e → Step b c e → Step a c e
Step-trans h k = record {
  heap = k.heap ∙ h.heap;
  timeout = λ x. k.timeout x ∙ h.timeout x;
  finalizing = λ x. k.finalizing x ∙ h.finalizing x;
  times = λ x. k.times x ∙ h.times x;
  active = λ x ne. k.active x ne ∙ h.active x ne;
}

module _ (b : EventBase) (e : ℕ) where
  pub abort_loop-Step : Step b (abort_loop b e) e
  unfolding abort_loop
  abort_loop-Step = record {
    heap = ground arith;
    timeout = λ x. ground arith;
    finalizing = λ x. ground arith;
    times = λ x. ground arith;
    active = λ x ne. ground arith;
  }

  pub drop_active-Step : Step b (drop_active b e) e
  unfolding drop_active remove_active remove_active_later
  drop_active-Step = record {
    heap = ground arith;
    timeout = λ x. ground arith;
    finalizing = λ x. ground arith;
    times = λ x. ground arith;
    active = λ x ne. ground arith;
  }

  pub drop_inserted-Step : (env : Env) → Step b (drop_inserted env b e).0 e
  unfolding drop_inserted remove_inserted evmap_del from_evmap
  drop_inserted-Step env = record {
    heap = ground arith;
    timeout = λ x. ground arith;
    finalizing = λ x. ground arith;
    times = λ x. ground arith;
    active = λ x ne. ground arith;
  }

  pub activate-Step : Step b (event_callback_activate b e).0 e
  unfolding event_callback_activate insert_active remove_active_later
  activate-Step = record {
    heap = ground arith;
    timeout = λ x. ground arith;
    finalizing = λ x. ground arith;
    times = λ x. ground arith;
    active = λ x ne. ground arith;
  }

  pub activate-on :
      ((flags_of b e).active && (flags_of b e).active_later) ≡ false
      → (flags_of b e).finalizing ≡ false
      → (flags_of (event_callback_activate b e).0 e).active ≡ true
  unfolding event_callback_activate insert_active remove_active_later
  activate-on one off = ground (arith, one, off)

-- What holds of both branches holds of the choice.
if-either :
    (P : EventBase → Type 0) (c : Bool) (x y : EventBase)
    → (c ≡ true → P x)
    → (c ≡ false → P y)
    → P (if c then x else y)
if-either P true x y t f = t refl
if-either P false x y t f = f refl

module _ (b : EventBase) (e : ℕ) where
  same-Step : Step b b e
  same-Step = record {
    heap = refl;
    timeout = λ x. refl;
    finalizing = λ x. refl;
    times = λ x. refl;
    active = λ x ne. refl;
  }

  marked-Step :
      (b' : EventBase) (ev : Event)
      → b'.events ≡ b.events
      → b'.timeheap ≡ b.timeheap
      → ev.ev_flags ≡ (b.events e).ev_flags
      → ev.ev_timeout ≡ (b.events e).ev_timeout
      → Step b (set_event b' e ev) e
  marked-Step b' ev events heap flags timeout = record {
    heap = heap;
    timeout = λ x. rw events (ground (arith, flags));
    finalizing = λ x. rw events (ground (arith, flags));
    times = λ x. rw events (ground (arith, timeout));
    active = λ x ne. rw events (ground (arith, flags));
  }

  module _ (res : What) (n : ℕ) where
    abbrev more : What
    more = what_or (b.events e).ev_res res

    abbrev called : Event
    called =
        with_calls (with_res (b.events e) (if (flags_of b e).active_later then more else res)) n

    called-flags : called.ev_flags ≡ (b.events e).ev_flags
    called-flags = ground arith

    called-timeout : called.ev_timeout ≡ (b.events e).ev_timeout
    called-timeout = ground arith

    interrupt-same : ((interrupt b e).events ≡ b.events) × ((interrupt b e).timeheap ≡ b.timeheap)
    interrupt-same = (ground arith, ground arith)

    abbrev marked : EventBase
    marked = set_event (interrupt b e) e called

    activated-Step : Step b (event_callback_activate marked e).0 e
    activated-Step =
        Step-trans
          (marked-Step (interrupt b e) called (interrupt-same.0) (interrupt-same.1) called-flags
            called-timeout)
          (activate-Step marked e)

    abbrev merged : EventBase
    merged = set_event b e (with_res (b.events e) more)

    abbrev merged_or_activated : EventBase
    merged_or_activated =
        if (flags_of b e).active then merged else (event_callback_activate marked e).0

    abbrev is_both : Bool
    is_both = (flags_of b e).active && (flags_of b e).active_later

    -- What holds of every outcome of event_active_nolock_ holds of it.
    event_active-either :
        (P : EventBase → Type 0)
        → ((flags_of b e).finalizing ≡ true → P b)
        → (is_both ≡ true → P (abort b))
        → ((flags_of b e).active ≡ true → P merged)
        → ((flags_of b e).finalizing ≡ false → P (event_callback_activate marked e).0)
        → P (event_active b e res n)
    unfolding event_active
    event_active-either P final both merge activate =
        if-either P (flags_of b e).finalizing b (if is_both then abort b else merged_or_activated)
          final
          (λ off. if-either P is_both (abort b) merged_or_activated both (λ _.
            if-either P (flags_of b e).active merged (event_callback_activate marked e).0 merge
              (λ _. activate off)))

    pub event_active-Step : Step b (event_active b e res n) e
    event_active-Step =
        event_active-either (λ r. Step b r e) (λ _. same-Step)
          (λ _. record {
            heap = refl;
            timeout = λ x. refl;
            finalizing = λ x. refl;
            times = λ x. refl;
            active = λ x ne. refl;
          })
          (λ _. marked-Step b (with_res (b.events e) more) refl refl refl refl)
          (λ _. activated-Step)

    marked-flags : flags_of marked e ≡ flags_of b e
    marked-flags = ground (arith, called-flags)

    -- event_active_nolock_ makes the event active.
    pub event_active-on :
        ((flags_of b e).active && (flags_of b e).active_later) ≡ false
        → (flags_of b e).finalizing ≡ false
        → (flags_of (event_active b e res n) e).active ≡ true
    event_active-on one off =
        event_active-either (λ r. (flags_of r e).active ≡ true)
          (λ on. absurd (ground (arith, on, off))) (λ both. absurd (ground (arith, both, one)))
          (λ on. ground (arith, on))
          (λ _. activate-on marked e (rw marked-flags one) (rw marked-flags off))
