-- ===== src/EventBase/Core/Process.antt =====
-- timeout_process: which events it activates, and that its loop ends.
use libevent.Common.{
  ℕ, zero, suc, ◌≡◌, ◌<◌, ◌≤◌, ◌&&◌, Bool, true, false, not, ◌||◌, arith, refl, sym, ◌∙◌, ap, some,
  Bool-cases, Option-cases, inl, inr,
}
use mathlib.Core.Path.{subst}
use native.Mathlib.Decide.{ℕ_discrete}
use libevent.Timeval.{Timeval, timercmp_gt, timercmp_lt-rank}
use libevent.MinHeap
use libevent.MinHeap.{MinHeap, elem_greater}
use libevent.MinHeap.Refill.{has}
use libevent.MinHeap.Order.{elem_greater-key}
use libevent.MinHeap.Remove.{top_least}
use libevent.Flags.{ev_timeout_only}
use libevent.Evmap.{Env}
use libevent.EventBase.State.{Event, EventBase, flags_of, times}
use libevent.EventBase.Timeouts.Invariant.{IsTimed-InRange}
use libevent.EventBase.Core.Defs.{event_del, event_active, gettime}
use libevent.EventBase.Core.AddDefs.{expire, timeout_process}
use libevent.EventBase.Core.Base.{IsBase}
use libevent.EventBase.Core.Alike.{gettime-IsBase}
use libevent.EventBase.Core.Due.{gettime-normal}
use libevent.EventBase.Core.Expired.{IsSettled, Expired, expired-Expired}

-- Whether an event waits in the heap for a time that has come.
abbrev pub is_due : EventBase → Timeval → ℕ → Bool
is_due b now x = has b.timeheap x && not (timercmp_gt (times b x) now)

-- What the loop of timeout_process comes to.
pub record Processed (b r : EventBase) (now : Timeval) : Type 0 where
  pub valid : IsBase r
  pub active : (x : ℕ) → (flags_of r x).active ≡ ((flags_of b x).active || is_due b now x)
  pub held : (x : ℕ) → has r.timeheap x ≡ (has b.timeheap x && not (is_due b now x))

-- The heap has no event whose time has come.
none_due-Processed :
    (b : EventBase) (now : Timeval)
    → IsBase b
    → ((x : ℕ) → is_due b now x ≡ false)
    → Processed b b now
none_due-Processed b now v none_due = record {
  valid = v;
  active = λ x. ground (arith, none_due x);
  held = λ x. ground (arith, none_due x);
}

-- The event at the top is not due, so none is.
top_not_due :
    (b : EventBase) (now : Timeval) (e : ℕ)
    → IsBase b
    → now.tv_usec < 1000000
    → MinHeap.top b.timeheap ≡ some e
    → timercmp_gt (times b e) now ≡ true
    → (x : ℕ) → is_due b now x ≡ false
top_not_due b now e v normal top later x =
    let range = IsTimed-InRange v.timed in
    let (held, least, first) = top_least (times b) range b.timeheap v.timed.heap e top in
    ground (
      arith,
      least x,
      elem_greater-key (times b) range e x,
      timercmp_lt-rank now (times b e) (omega (arith, normal)) (range e),
      timercmp_lt-rank now (times b x) (omega (arith, normal)) (range x),
      later,
    )

empty_not_due :
    (b : EventBase) (now : Timeval) → IsBase b → b.timeheap.n ≡ 0 → (x : ℕ) → is_due b now x ≡ false
empty_not_due b now v none_left x = elim (Option-cases (b.timeheap.min_heap_idx x)) [
  | inl missing ↦ rw missing refl
  | inr (i, here) ↦ absurd (omega (arith, (v.timed.heap.indexed.back x i here).0, none_left))
]

-- The event at the top is due and has been dealt with, and then the rest has.
one_more-Processed :
    (b b' r : EventBase) (now : Timeval) (e : ℕ)
    → Expired b b' e
    → is_due b now e ≡ true
    → Processed b' r now
    → Processed b r now
one_more-Processed b b' r now e d is p = record {
  valid = p.valid;
  active = λ x.
      p.active x
      ∙ rw (d.active x, d.held x, d.times x)
          (elim (ℕ_discrete e x) [
            | yes at ↦ rw (← at) (ground (arith, is))
            | no ne ↦ ground arith
          ]);
  held = λ x.
      p.held x
      ∙ rw (d.held x, d.times x)
          (elim (ℕ_discrete e x) [
            | yes at ↦ rw (← at) (ground (arith, is))
            | no ne ↦ ground arith
          ]);
}

expire-Processed :
    (env : Env) (fuel : ℕ) (b : EventBase) (now : Timeval)
    → IsBase b
    → IsSettled b
    → now.tv_usec < 1000000
    → b.timeheap.n ≤ fuel
    → Processed b (expire env fuel b now) now
unfolding expire
expire-Processed env zero b now v settled normal enough =
    none_due-Processed b now v (empty_not_due b now v (omega arith))
expire-Processed env (suc fuel) b now v settled normal enough =
    elim (Option-cases (MinHeap.top b.timeheap)) [
      | inl empty ↦
          rw (empty, expire)
            (none_due-Processed b now v
              (empty_not_due b now v (unfold MinHeap.top in ground (arith, empty))))
      | inr (e, top) ↦
          let here =
            (top_least (times b) (IsTimed-InRange v.timed) b.timeheap v.timed.heap e top).0 in
          let d = expired-Expired env b v settled e here in
          let b' = event_active (event_del env b e false).0 e ev_timeout_only 1 in
          let rest =
            expire-Processed env fuel b' now d.valid d.settled normal
              (omega (arith, d.size, enough)) in
          rw (top, expire)
            (elim (Bool-cases (timercmp_gt (times b e) now)) [
              | inl later ↦
                  rw later (none_due-Processed b now v (top_not_due b now e v normal top later))
              | inr due ↦ rw due (
                  one_more-Processed b b' (expire env fuel b' now) now e d
                    (ground (arith, here, due)) rest)
            ])
    ]

read_events :
    (b : EventBase) → ((gettime b).0.events ≡ b.events) × ((gettime b).0.timeheap ≡ b.timeheap)
unfolding gettime
read_events b = (ground arith, ground arith)

-- timeout_process on a base that is right, and where no event that is being finalized waits for a time,
-- which event_add_nolock_, event_del_nolock_, event_active_nolock_ and event_callback_finalize_nolock_
-- leave so (Settled):
-- the loop ends, no assertion fails, and the base stays right; exactly the events of the heap whose
-- time is not later than now are active in addition, and those have left the heap.
pub timeout_process-Processed :
    (env : Env) (b : EventBase)
    → IsBase b
    → IsSettled b
    → Processed b (timeout_process env b) (gettime b).1
unfolding timeout_process
timeout_process-Processed env b v settled = elim (Bool-cases (MinHeap.is_empty b.timeheap)) [
  | inl empty ↦
      rw (empty, timeout_process)
        (none_due-Processed b (gettime b).1 v
          (empty_not_due b (gettime b).1 v (unfold MinHeap.is_empty in ground (arith, empty))))
  | inr some_left ↦
      let (same, heap) = read_events b in
      let at = λ (x : ℕ). ap (λ (f : ℕ → Event). f x) same in
      let p =
        expire-Processed env b.timeheap.n (gettime b).0 (gettime b).1 (gettime-IsBase b v)
          (λ x.
            subst (λ (ev : Event). (ev.ev_flags.finalizing && ev.ev_flags.timeout) ≡ false)
              (sym (at x)) (settled x))
          (gettime-normal b v.timed.clock) (rw heap (omega arith)) in
      rw (some_left, timeout_process)
        (record {
          valid = p.valid;
          active = λ x. p.active x ∙ ground (arith, heap, at x);
          held = λ x. p.held x ∙ ground (arith, heap, at x);
        })
]
