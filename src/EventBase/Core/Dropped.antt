-- ===== src/EventBase/Core/Dropped.antt =====
-- What the steps of event_del_nolock_ and event_callback_cancel_nolock_ take from the flags of an event.
use libevent.Common.{
  ℕ, ◌≡◌, ◌≢◌, ◌&&◌, ◌||◌, Bool, true, false, not, arith, refl, ◌∙◌, Bool-cases, inl, inr, ap,
  Option-cases,
}
use libevent.Flags.{EvFlags, is_io}
use libevent.Evmap.{Env, Evmap, EvmapResult}
use libevent.EventBase.State.{Event, EventBase, flags_of}
use libevent.EventBase.Queues.{remove_active, remove_active_later}
use libevent.EventBase.Timeouts.{remove_timeout}
use libevent.EventBase.Core.Defs.{
  abort_loop, drop_timeout, drop_active, drop_inserted, remove_inserted, evmap_del, from_evmap,
  event_del, event_callback_cancel,
}

-- An event has lost its timeout where `timed`, its place among the active ones and those of the later
-- queue where `queued`, and its place in the evmap where `inserted`. The rest of its flags and all
-- other events are as before.
pub record Dropped (b r : EventBase) (e : ℕ) (timed queued mapped : Bool) : Type 0 where
  pub timeout : (flags_of r e).timeout ≡ ((flags_of b e).timeout && not timed)
  pub active : (flags_of r e).active ≡ ((flags_of b e).active && not queued)
  pub active_later : (flags_of r e).active_later ≡ ((flags_of b e).active_later && not queued)
  pub inserted : (flags_of r e).inserted ≡ ((flags_of b e).inserted && not mapped)
  pub init : (flags_of r e).init ≡ (flags_of b e).init
  pub finalizing : (flags_of r e).finalizing ≡ (flags_of b e).finalizing
  pub others : (x : ℕ) → e ≢ x → r.events x ≡ b.events x

module _ (b : EventBase) (e : ℕ) where
  abort_loop-Dropped : Dropped b (abort_loop b e) e false false false
  unfolding abort_loop
  abort_loop-Dropped = record {
    timeout = ground arith;
    active = ground arith;
    active_later = ground arith;
    inserted = ground arith;
    init = ground arith;
    finalizing = ground arith;
    others = λ x ne. ground arith;
  }

  drop_timeout-Dropped : Dropped b (drop_timeout b e) e true false false
  unfolding drop_timeout remove_timeout
  drop_timeout-Dropped = record {
    timeout = ground arith;
    active = ground arith;
    active_later = ground arith;
    inserted = ground arith;
    init = ground arith;
    finalizing = ground arith;
    others = λ x ne. ground arith;
  }

  drop_active-Dropped :
      ((flags_of b e).active && (flags_of b e).active_later) ≡ false
      → Dropped b (drop_active b e) e false true false
  unfolding drop_active remove_active remove_active_later
  drop_active-Dropped one = record {
    timeout = ground arith;
    active = ground (arith, one);
    active_later = ground (arith, one);
    inserted = ground arith;
    init = ground arith;
    finalizing = ground arith;
    others = λ x ne. ground arith;
  }

  remove_inserted-Dropped :
      (flags_of b e).inserted ≡ true → Dropped b (remove_inserted b e) e false false true
  unfolding remove_inserted
  remove_inserted-Dropped on = record {
    timeout = ground (arith, on);
    active = ground (arith, on);
    active_later = ground (arith, on);
    inserted = ground (arith, on);
    init = ground (arith, on);
    finalizing = ground (arith, on);
    others = λ x ne. ground (arith, on);
  }

  same-Dropped : (flags_of b e).inserted ≡ false → Dropped b b e false false true
  same-Dropped off = record {
    timeout = ground arith;
    active = ground arith;
    active_later = ground arith;
    inserted = ground (arith, off);
    init = refl;
    finalizing = refl;
    others = λ x ne. refl;
  }

from_evmap-events :
    (b : EventBase) (out : Evmap × EvmapResult) → (from_evmap b out).0.events ≡ b.events
unfolding from_evmap
from_evmap-events b (m, EvmapResult.fault) = refl
from_evmap-events b (m, EvmapResult.failed) = refl
from_evmap-events b (m, EvmapResult.same) = refl
from_evmap-events b (m, EvmapResult.changed) = refl

evmap_del-events : (env : Env) (b : EventBase) (e : ℕ) → (evmap_del env b e).0.events ≡ b.events
unfolding evmap_del
evmap_del-events env b e = elim (Bool-cases (is_io (b.events e).ev_events)) [
  | inl io ↦ rw io (from_evmap-events b _)
  | inr other ↦ elim (Option-cases (b.events e).ev_fd) [
    | inl missing ↦ rw (other, missing) refl
    | inr (sig, here) ↦ rw (other, here) (from_evmap-events b _)
  ]
]

module _ (env : Env) (b : EventBase) (e : ℕ) where
  drop_inserted-Dropped : Dropped b (drop_inserted env b e).0 e false false true
  unfolding drop_inserted
  drop_inserted-Dropped = elim (Bool-cases (flags_of b e).inserted) [
    | inr off ↦ rw off (same-Dropped b e off)
    | inl on ↦
        let d = remove_inserted-Dropped b e on in
        let same = evmap_del-events env (remove_inserted b e) e in
        let at = λ (x : ℕ). ap (λ (f : ℕ → Event). f x) same in
        let flags = ap (λ (ev : Event). ev.ev_flags) (at e) in
        rw on (record {
          timeout = ap (λ (f : EvFlags). f.timeout) flags ∙ d.timeout;
          active = ap (λ (f : EvFlags). f.active) flags ∙ d.active;
          active_later = ap (λ (f : EvFlags). f.active_later) flags ∙ d.active_later;
          inserted = ap (λ (f : EvFlags). f.inserted) flags ∙ d.inserted;
          init = ap (λ (f : EvFlags). f.init) flags ∙ d.init;
          finalizing = ap (λ (f : EvFlags). f.finalizing) flags ∙ d.finalizing;
          others = λ x ne. at x ∙ d.others x ne;
        })
  ]

Dropped-trans :
    {a b c : EventBase} {e : ℕ} {t q m t' q' m' : Bool}
    → Dropped a b e t q m
    → Dropped b c e t' q' m'
    → Dropped a c e (t || t') (q || q') (m || m')
Dropped-trans h k = record {
  timeout = ground (arith, h.timeout, k.timeout);
  active = ground (arith, h.active, k.active);
  active_later = ground (arith, h.active_later, k.active_later);
  inserted = ground (arith, h.inserted, k.inserted);
  init = k.init ∙ h.init;
  finalizing = k.finalizing ∙ h.finalizing;
  others = λ x ne. k.others x ne ∙ h.others x ne;
}

module _ (env : Env) (b : EventBase) (e : ℕ) (even_if_finalizing : Bool)
    (one : ((flags_of b e).active && (flags_of b e).active_later) ≡ false)
    (goes : ((flags_of b e).finalizing && not even_if_finalizing) ≡ false) where
  pub event_del-Dropped : Dropped b (event_del env b e even_if_finalizing).0 e true true true
  unfolding event_del
  event_del-Dropped =
      let quiet = abort_loop-Dropped b e in
      let untimed = Dropped-trans quiet (drop_timeout-Dropped (abort_loop b e) e) in
      let idle = Dropped-trans untimed (
        drop_active-Dropped (drop_timeout (abort_loop b e) e) e
          (ground (arith, untimed.active, untimed.active_later, one))) in
      rw goes (Dropped-trans idle (drop_inserted-Dropped env _ e))

  -- A callback without EVLIST_INIT only leaves the queues of active callbacks.
  pub cancelled-Dropped :
      Dropped b
        (event_callback_cancel env b e even_if_finalizing).0
        e
        (flags_of b e).init
        true
        (flags_of b e).init
  unfolding event_callback_cancel
  cancelled-Dropped = elim (Bool-cases (flags_of b e).init) [
    | inl is ↦ rw (goes, is) event_del-Dropped
    | inr bare ↦ rw (goes, bare, one) (drop_active-Dropped b e one)
  ]
