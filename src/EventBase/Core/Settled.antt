-- ===== src/EventBase/Core/Settled.antt =====
-- The operations after which, as before, no event that is being finalized waits for a time, which the
-- loop of timeout_process needs.
use libevent.Common.{
  ℕ, zero, suc, ◌≡◌, ◌&&◌, Bool, true, false, not, arith, refl, ◌∙◌, if◌then◌else◌, Bool-cases, inl,
  inr, Option, some, none,
}
use native.Mathlib.Decide.{ℕ_discrete}
use libevent.Flags.{What}
use libevent.Timeval.{Timeval}
use libevent.Evmap.{Env}
use libevent.EventBase.State.{
  EventBase, flags_of, times, is_common_timeout, common_timeout_idx, masked,
}
use libevent.EventBase.Timeouts.{insert_timeout, remove_timeout}
use libevent.EventBase.Queues.{remove_active}
use libevent.EventBase.Core.Defs.{
  gettime, event_del, event_active, abort_loop, drop_timeout, evmap_add, from_evmap,
  insert_inserted,
}
use libevent.EventBase.Core.AddDefs.{
  reserve_timeout, add_inserted, remember, drop_expired, set_due, add_timeout, event_add_in,
  event_add, due, is_first,
}
use libevent.EventBase.Core.AssignDefs.{event_callback_finalize}
use libevent.EventBase.Core.Base.{IsBase}
use libevent.EventBase.Core.Steps.{event_active-Step}
use libevent.EventBase.Core.Expired.{IsSettled}
use libevent.EventBase.Core.Cancel.{event_callback_finalize-Finalized}
use libevent.EventBase.Core.Dropped.{event_del-Dropped}

-- No event that does not wait for a time waits for one after, and the same events are being finalized.
record Kept (b r : EventBase) : Type 0 where
  finalizing : (x : ℕ) → (flags_of r x).finalizing ≡ (flags_of b x).finalizing
  timeout : (x : ℕ) → ((flags_of r x).timeout && not (flags_of b x).timeout) ≡ false

Kept-trans : {a b c : EventBase} → Kept a b → Kept b c → Kept a c
Kept-trans h k = record {
  finalizing = λ x. k.finalizing x ∙ h.finalizing x;
  timeout = λ x. ground (arith, h.timeout x, k.timeout x);
}

Kept-IsSettled : {b r : EventBase} → Kept b r → IsSettled b → IsSettled r
Kept-IsSettled h s x = ground (arith, h.finalizing x, h.timeout x, s x)

module _ (b : EventBase) (e : ℕ) where
  reserve-Kept :
      (heap_ok : ℕ → Bool) (tv : Option Timeval) → Kept b (reserve_timeout heap_ok b e tv).0
  unfolding reserve_timeout
  reserve-Kept heap_ok none = record { finalizing = λ x. refl; timeout = λ x. ground arith }
  reserve-Kept heap_ok (some t) = record {
    finalizing = λ x. ground arith;
    timeout = λ x. ground arith;
  }

  add_inserted-Kept : (env : Env) → Kept b (add_inserted env b e).0
  unfolding add_inserted evmap_add from_evmap insert_inserted
  add_inserted-Kept env = record { finalizing = λ x. ground arith; timeout = λ x. ground arith }

  remember-Kept : (tv : Timeval) (abs : Bool) → Kept b (remember b e tv abs)
  unfolding remember
  remember-Kept tv abs = record { finalizing = λ x. ground arith; timeout = λ x. ground arith }

  drop_timeout-Kept : Kept b (drop_timeout b e)
  unfolding drop_timeout remove_timeout
  drop_timeout-Kept = record { finalizing = λ x. ground arith; timeout = λ x. ground arith }

  drop_expired-Kept : Kept b (drop_expired b e)
  unfolding drop_expired abort_loop remove_active
  drop_expired-Kept = record { finalizing = λ x. ground arith; timeout = λ x. ground arith }

  gettime-Kept : Kept b (gettime b).0
  unfolding gettime
  gettime-Kept = record { finalizing = λ x. ground arith; timeout = λ x. ground arith }

  set_due-Kept : (t : Timeval) → Kept b (set_due b e t)
  set_due-Kept t = record { finalizing = λ x. ground arith; timeout = λ x. ground arith }

  insert_timeout-IsSettled :
      (heap_ok : ℕ → Bool)
      → (flags_of b e).finalizing ≡ false
      → IsSettled b
      → IsSettled (insert_timeout heap_ok b e)
  unfolding insert_timeout
  insert_timeout-IsSettled heap_ok live s x = ground (arith, live, s x)

abbrev before_insert : EventBase → ℕ → Timeval → Bool → EventBase
before_insert b e tv abs = (gettime (drop_expired (drop_timeout (remember b e tv abs) e) e)).0

before_insert-Kept :
    (b : EventBase) (e : ℕ) (tv : Timeval) (abs : Bool) → Kept b (before_insert b e tv abs)
before_insert-Kept b e tv abs =
    Kept-trans
      (Kept-trans (Kept-trans (remember-Kept b e tv abs) (drop_timeout-Kept _ e))
        (drop_expired-Kept _ e))
      (gettime-Kept _ e)

-- IsSettled as a record, which shows its base.
record Quiet (b : EventBase) : Type 0 where
  settled : IsSettled b

choice-Quiet :
    (c : Bool) (x y : EventBase)
    → (c ≡ true → Quiet x)
    → (c ≡ false → Quiet y)
    → Quiet (if c then x else y)
choice-Quiet true x y s t = s refl
choice-Quiet false x y s t = t refl

result-Quiet :
    (c : Bool) (x y : EventBase × Bool)
    → (c ≡ true → Quiet x.0)
    → (c ≡ false → Quiet y.0)
    → Quiet (if c then x else y).0
result-Quiet true x y s t = s refl
result-Quiet false x y s t = t refl

Kept-Quiet : {b r : EventBase} → Kept b r → Quiet b → Quiet r
Kept-Quiet h q = record { settled = Kept-IsSettled h q.settled }

module _ (heap_ok : ℕ → Bool) (schedule : EventBase → ℕ → ℕ → EventBase)
    (again : (r : EventBase) (i head : ℕ) → Quiet r → Quiet (schedule r i head)) where
  add_timeout-Quiet :
      (b : EventBase) (e : ℕ) (tv : Timeval) (abs : Bool)
      → (flags_of b e).finalizing ≡ false
      → Quiet b
      → Quiet (add_timeout heap_ok schedule b e tv abs)
  unfolding add_timeout
  add_timeout-Quiet b e tv abs live q =
      let cleared = drop_expired (drop_timeout (remember b e tv abs) e) e in
      let b' = (gettime cleared).0 in
      let t = due b' (gettime cleared).1 tv abs in
      let kept = Kept-trans (before_insert-Kept b e tv abs) (set_due-Kept b' e t) in
      let timed = insert_timeout heap_ok (set_due b' e t) e in
      let timed-Quiet : Quiet timed = record {
        settled =
            insert_timeout-IsSettled (set_due b' e t) e heap_ok (kept.finalizing e ∙ live)
              (Kept-IsSettled kept q.settled);
      } in
      let i = common_timeout_idx (times timed e) in
      choice-Quiet (is_common_timeout b' tv && is_first e (timed.common_timeout_queues i).events)
        (schedule timed i e) timed (λ _. again timed i e timed-Quiet) (λ _. timed-Quiet)

module _ (env : Env) (heap_ok : ℕ → Bool) where
  add_in-Quiet :
      (depth : ℕ) (b : EventBase) (e : ℕ) (tv : Option Timeval) (abs : Bool)
      → Quiet b
      → Quiet (event_add_in env heap_ok depth b e tv abs).0
  unfolding event_add_in
  add_in-Quiet zero b e tv abs q = record { settled = q.settled }
  add_in-Quiet (suc depth) b e none abs q =
      let reserved = (reserve_timeout heap_ok b e none).0 in
      let first = reserve-Kept b e heap_ok none in
      let kept = Kept-trans first (add_inserted-Kept reserved e env) in
      result-Quiet (flags_of b e).finalizing _ _ (λ _. q)
        (λ live.
          result-Quiet (not (reserve_timeout heap_ok b e none).1) _ _ (λ _. Kept-Quiet first q)
            (λ _.
              result-Quiet (not (add_inserted env reserved e).1) _ _ (λ _. Kept-Quiet kept q)
                (λ _. Kept-Quiet kept q)))
  add_in-Quiet (suc depth) b e (some t) abs q =
      let reserved = (reserve_timeout heap_ok b e (some t)).0 in
      let first = reserve-Kept b e heap_ok (some t) in
      let kept = Kept-trans first (add_inserted-Kept reserved e env) in
      result-Quiet (flags_of b e).finalizing _ _ (λ _. q)
        (λ live.
          result-Quiet (not (reserve_timeout heap_ok b e (some t)).1) _ _ (λ _. Kept-Quiet first q)
            (λ _.
              result-Quiet (not (add_inserted env reserved e).1) _ _ (λ _. Kept-Quiet kept q)
                (λ _.
                  add_timeout-Quiet heap_ok
                    (λ b' i head.
                      (event_add_in env heap_ok depth b' (b'.common_timeout_queues i).timeout_event
                        (some (masked (times b' head))) true).0)
                    (λ r i head h. add_in-Quiet depth r _ _ true h) (add_inserted env reserved e).0
                    e t abs (kept.finalizing e ∙ live) (Kept-Quiet kept q))))

  -- event_add_nolock_ of any event, with any timeout or none, leaves no event that is being finalized
  -- waiting for a time, if there was none.
  event_add-IsSettled :
      (b : EventBase) (e : ℕ) (tv : Option Timeval) (abs : Bool)
      → IsSettled b
      → IsSettled (event_add env heap_ok b e tv abs).0
  unfolding event_add
  event_add-IsSettled b e tv abs s = (add_in-Quiet 2 b e tv abs (record { settled = s })).settled

  -- So does event_del_nolock_ on a base that is right.
  event_del-IsSettled :
      (b : EventBase) (e : ℕ) (even_if_finalizing : Bool)
      → IsBase b
      → IsSettled b
      → IsSettled (event_del env b e even_if_finalizing).0
  event_del-IsSettled b e even v s x = elim (Bool-cases ((flags_of b e).finalizing && not even)) [
    | inl stays ↦ unfold event_del in rw stays (s x)
    | inr goes ↦
        let d = event_del-Dropped env b e even (v.queued.exclusive e) goes in
        elim (ℕ_discrete e x) [
          | yes at ↦ rw (← at) (ground (arith, d.finalizing, d.timeout, s e))
          | no ne ↦ ground (arith, d.others x ne, s x)
        ]
  ]

  -- And so does event_callback_finalize_nolock_ of an event that is not being finalized yet, though it
  -- marks the event.
  event_callback_finalize-IsSettled :
      (b : EventBase) (e : ℕ)
      → IsBase b
      → (flags_of b e).init ≡ true
      → (flags_of b e).finalizing ≡ false
      → IsSettled b
      → IsSettled (event_callback_finalize env b e)
  event_callback_finalize-IsSettled b e v is live s x =
      let f = event_callback_finalize-Finalized env b e v live in
      elim (ℕ_discrete e x) [
        | yes at ↦ rw (← at) (ground (arith, f.timeout, is))
        | no ne ↦ ground (arith, f.others x ne, s x)
      ]

-- And event_active_nolock_.
event_active-IsSettled :
    (b : EventBase) (e : ℕ) (res : What) (ncalls : ℕ)
    → IsSettled b
    → IsSettled (event_active b e res ncalls)
event_active-IsSettled b e res ncalls s x =
    let h = event_active-Step b e res ncalls in ground (arith, h.finalizing x, h.timeout x, s x)
