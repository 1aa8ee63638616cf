-- ===== src/EventBase/Core/Expired.antt =====
-- One round of the loop of timeout_process.
use libevent.Common.{ℕ, ◌≡◌, ◌+◌, ◌&&◌, true, false, not, ◌||◌, arith, sym, ◌∙◌, ap, ◌==◌}
use native.Mathlib.Decide.{ℕ_discrete}
use libevent.MinHeap
use libevent.MinHeap.{MinHeap, elem_greater}
use libevent.MinHeap.Refill.{has}
use libevent.MinHeap.Remove.{Removed, erase-Removed}
use libevent.Flags.{ev_timeout_only}
use libevent.Evmap.{Env}
use libevent.EventBase.State.{EventBase, flags_of, times, is_common_timeout}
use libevent.EventBase.Timeouts.{remove_timeout}
use libevent.EventBase.Timeouts.Invariant.{IsTimed-InRange}
use libevent.EventBase.Core.Defs.{
  abort_loop, drop_timeout, drop_active, drop_inserted, event_del, event_active,
}
use libevent.EventBase.Core.Base.{IsBase}
use libevent.EventBase.Core.Delete.{event_del-IsBase}
use libevent.EventBase.Core.Drop.{abort_loop-IsBase}
use libevent.EventBase.Core.Activate.{event_active-IsBase}
use libevent.EventBase.Core.Steps.{
  Step, Step-trans, abort_loop-Step, drop_active-Step, drop_inserted-Step, event_active-Step,
  event_active-on,
}

-- An event that is being finalized waits for no time.
abbrev pub IsSettled : EventBase → Type 0
IsSettled b = (x : ℕ) → ((flags_of b x).finalizing && (flags_of b x).timeout) ≡ false

-- One event of the heap has been dealt with.
pub record Expired (b r : EventBase) (e : ℕ) : Type 0 where
  pub valid : IsBase r
  pub settled : IsSettled r
  pub size : r.timeheap.n + 1 ≡ b.timeheap.n
  pub held : (x : ℕ) → has r.timeheap x ≡ (has b.timeheap x && not (e == x))
  pub times : (x : ℕ) → times r x ≡ times b x
  pub active : (x : ℕ) → (flags_of r x).active ≡ ((flags_of b x).active || e == x)

module _ (b : EventBase) (e : ℕ) (on : (flags_of b e).timeout ≡ true)
    (plain : is_common_timeout b (times b e) ≡ false) where
  dropped :
      ((drop_timeout b e).timeheap ≡ (MinHeap.erase (times b) b.timeheap e).0)
      × ((x : ℕ)
          → (flags_of (drop_timeout b e) x).timeout ≡ ((flags_of b x).timeout && not (e == x)))
      × ((x : ℕ) → (flags_of (drop_timeout b e) x).finalizing ≡ (flags_of b x).finalizing)
      × ((x : ℕ) → times (drop_timeout b e) x ≡ times b x)
      × ((x : ℕ) → (flags_of (drop_timeout b e) x).active ≡ (flags_of b x).active)
  unfolding drop_timeout remove_timeout
  dropped = (
    ground (arith, on, plain),
    λ x. ground (arith, on, plain),
    λ x. ground (arith, on, plain),
    λ x. ground (arith, on, plain),
    λ x. ground (arith, on, plain),
  )

module _ (env : Env) (b : EventBase) (v : IsBase b) (settled : IsSettled b) (e : ℕ)
    (here : has b.timeheap e ≡ true) where
  abbrev quiet : EventBase
  quiet = abort_loop b e

  abbrev untimed : EventBase
  untimed = drop_timeout quiet e

  abbrev deleted : EventBase
  deleted = (event_del env b e false).0

  abbrev expired : EventBase
  expired = event_active deleted e ev_timeout_only 1

  waiting : ((flags_of b e).timeout && not (is_common_timeout b (times b e))) ≡ true
  waiting = sym (v.timed.in_heap e) ∙ here

  not_final : (flags_of b e).finalizing ≡ false
  not_final = ground (arith, waiting, settled e)

  deleted-is : deleted ≡ (drop_inserted env (drop_active untimed e) e).0
  unfolding event_del
  deleted-is = ground (arith, not_final)

  after_timeout : Step untimed deleted e
  after_timeout =
      rw deleted-is
        (Step-trans (drop_active-Step untimed e) (drop_inserted-Step (drop_active untimed e) e env))

  deleted-IsBase : IsBase deleted
  deleted-IsBase = event_del-IsBase env b v e false

  before : Step b quiet e
  before = abort_loop-Step b e

  quiet-IsBase : IsBase quiet
  quiet-IsBase = abort_loop-IsBase b v e

  quiet_waiting :
      ((flags_of quiet e).timeout && not (is_common_timeout quiet (times quiet e))) ≡ true
  quiet_waiting = sym (quiet-IsBase.timed.in_heap e) ∙ rw before.heap here

  gone : Removed (times quiet) quiet.timeheap e (MinHeap.erase (times quiet) quiet.timeheap e).0
  gone =
      ((erase-Removed (times quiet) (IsTimed-InRange quiet-IsBase.timed) quiet.timeheap
          quiet-IsBase.timed.heap e).0
        (rw before.heap here)).1

  final : Step deleted expired e
  final = event_active-Step deleted e ev_timeout_only 1

  pub expired-Expired : Expired b expired e
  expired-Expired =
      let (heap, timeout, finalizing, same, active) =
        dropped quiet e (ground (arith, quiet_waiting)) (ground (arith, quiet_waiting)) in
      record {
        valid = event_active-IsBase deleted deleted-IsBase e ev_timeout_only 1;
        settled = λ x.
            rw
              (
                final.finalizing x,
                final.timeout x,
                after_timeout.finalizing x,
                after_timeout.timeout x,
                finalizing x,
                timeout x,
                before.finalizing x,
                before.timeout x,
              )
              (ground (arith, settled x));
        size =
            rw (final.heap, after_timeout.heap, heap)
              (gone.size ∙ ap (λ (h : MinHeap). h.n) before.heap);
        held = λ x.
            rw (final.heap, after_timeout.heap, heap)
              (gone.members x ∙ ap (λ (h : MinHeap). has h x && not (e == x)) before.heap);
        times = λ x. final.times x ∙ after_timeout.times x ∙ same x ∙ before.times x;
        active = λ x. elim (ℕ_discrete e x) [
          | yes at ↦ rw (← at) (
              event_active-on deleted e ev_timeout_only 1 (deleted-IsBase.queued.exclusive e)
                (after_timeout.finalizing e ∙ finalizing e ∙ before.finalizing e ∙ not_final)
              ∙ ground arith)
          | no ne ↦
              final.active x ne
              ∙ after_timeout.active x ne
              ∙ active x
              ∙ before.active x ne
              ∙ ground arith
        ];
      }
