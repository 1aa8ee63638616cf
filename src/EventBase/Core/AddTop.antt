-- ===== src/EventBase/Core/AddTop.antt =====
-- event_add_nolock_ as a whole keeps an event base right.
use libevent.Common.{
  ℕ, suc, ◌≡◌, ◌<◌, ◌+◌, ◌^◌, Bool, true, false, not, arith, refl, sym, ◌∙◌, ap, if◌then◌else◌,
  Option, none, some,
}
use libevent.Timeval.{Timeval}
use libevent.MinHeap.{MinHeap}
use libevent.MinHeap.Refill.{IsHeap}
use libevent.MinHeap.Push.{reserve-IsHeap, reserve_room}
use libevent.Evmap.{Env}
use libevent.EventBase.State.{EventBase, flags_of, times, is_common_timeout, masked}
use libevent.EventBase.Timeouts.Invariant.{same_times-IsTimed}
use libevent.EventBase.Core.Defs.{evmap_add, from_evmap, insert_inserted}
use libevent.EventBase.Core.AddDefs.{
  add_timeout, reserve_timeout, add_inserted, event_add_in, event_add,
}
use libevent.EventBase.Core.Agree.{IsQueued-agree}
use libevent.EventBase.Core.Base.{IsBase, IsMapped-agree}
use libevent.EventBase.Core.Insert.{add_inserted-IsBase}
use libevent.EventBase.Core.Room.{Steady, Steady-trans, HasRoom}
use libevent.EventBase.Core.Add.{add_timeout-IsBase}

-- The base with another heap of the same events.
with_heap-IsBase :
    (b : EventBase) (h : MinHeap)
    → IsBase b
    → IsHeap (times b) h
    → h.min_heap_idx ≡ b.timeheap.min_heap_idx
    → IsBase (record b { timeheap = h })
unfolding is_common_timeout
with_heap-IsBase b h v heap same = record {
  queued =
      IsQueued-agree
        (record {
          activequeues = λ q. refl;
          later = refl;
          nactivequeues = refl;
          counted = refl;
          active = λ x. refl;
          active_later = λ x. refl;
          pris = λ x. refl;
          fine = v.timed.fine;
        })
        v.queued;
  timed =
      same_times-IsTimed v.timed (λ x. refl) heap (λ x. rw same (v.timed.in_heap x))
        v.timed.in_common v.timed.ordered v.timed.plain
        (record { cached = v.timed.clock.cached; read = v.timed.clock.read }) v.timed.fine;
  mapped =
      IsMapped-agree
        (record { evmap = refl; wants = λ x. refl; fd = λ x. refl; inserted = λ x. refl }) v.mapped;
}

-- What a caller of event_add_nolock_ must see to. The interval fits; an event of a common timeout list
-- gets no common timeout; and where an event leaves a common timeout list, so that the code reserves
-- nothing in the heap, the heap has room.
pub record Addable (b : EventBase) (e : ℕ) (tv : Timeval) (tv_is_absolute : Bool) : Type 0 where
  pub small : tv.tv_usec < 2 ^ 31
  pub internal :
      (i : ℕ)
      → (b.common_timeout_queues i).timeout_event ≡ e
      → (tv_is_absolute ≡ true) × (is_common_timeout b tv ≡ false)
  pub room :
      (flags_of b e).timeout ≡ true
      → is_common_timeout b (times b e) ≡ true
      → b.timeheap.n < b.timeheap.a

-- A base that is in one of two results.
pub IsBase-result :
    (c : Bool) (x y : EventBase × Bool)
    → (c ≡ true → IsBase x.0)
    → (c ≡ false → IsBase y.0)
    → IsBase (if c then x else y).0
IsBase-result true x y t f = t refl
IsBase-result false x y t f = f refl

module _ (heap_ok : ℕ → Bool) (b : EventBase) (e : ℕ) where
  reserved-IsBase : (tv : Option Timeval) → IsBase b → IsBase (reserve_timeout heap_ok b e tv).0
  unfolding reserve_timeout
  reserved-IsBase none v = v
  reserved-IsBase (some t) v =
      let (heap, size, idx) =
        reserve-IsHeap (times b) heap_ok b.timeheap (1 + b.timeheap.n) v.timed.heap in
      IsBase-result (flags_of b e).timeout _ _ (λ _. v) (λ _. with_heap-IsBase b _ v heap idx)

  reserved-Steady : (tv : Option Timeval) → Steady b (reserve_timeout heap_ok b e tv).0
  unfolding reserve_timeout
  reserved-Steady none = record { owners = λ i. refl; number = refl }
  reserved-Steady (some t) = record { owners = λ i. ground arith; number = ground arith }

reserved-room :
    (heap_ok : ℕ → Bool) (b : EventBase) (e : ℕ) (t : Timeval)
    → ((flags_of b e).timeout ≡ true
        → is_common_timeout b (times b e) ≡ true
        → b.timeheap.n < b.timeheap.a)
    → (reserve_timeout heap_ok b e (some t)).1 ≡ true
    → HasRoom (reserve_timeout heap_ok b e (some t)).0 e
unfolding reserve_timeout is_common_timeout
reserved-room heap_ok b e t room ok h =
    let (same, grown, enough, failed) = reserve_room heap_ok b.timeheap (1 + b.timeheap.n) in
    let size = ap (λ (s : MinHeap). s.n) same in ground (arith, ok, h, room, enough, size)

module _ (env : Env) (b : EventBase) (e : ℕ) where
  added-Steady : Steady b (add_inserted env b e).0
  unfolding add_inserted evmap_add from_evmap insert_inserted
  added-Steady = record { owners = λ i. ground arith; number = ground arith }

  added-room : HasRoom b e → HasRoom (add_inserted env b e).0 e
  unfolding add_inserted evmap_add from_evmap insert_inserted is_common_timeout
  added-room room h = ground (arith, room, h)

Steady-common :
    (b r : EventBase) (t : Timeval) → Steady b r → is_common_timeout r t ≡ is_common_timeout b t
unfolding is_common_timeout
Steady-common b r t h = rw h.number refl

masked-plain : (b : EventBase) (t : Timeval) → is_common_timeout b (masked t) ≡ false
unfolding is_common_timeout
masked-plain b t = ground arith

module _ (env : Env) (heap_ok : ℕ → Bool) where
  -- common_timeout_schedule, for calls that are so deep.
  abbrev schedule : ℕ → EventBase → ℕ → ℕ → EventBase
  schedule depth b i head =
      (event_add_in env heap_ok depth b (b.common_timeout_queues i).timeout_event
        (some (masked (times b head))) true).0

  module _ (depth : ℕ) (b : EventBase) (v : IsBase b) (e : ℕ) (t : Timeval) (abs : Bool)
      (fits : Addable b e t abs)
      (scheduled : is_common_timeout b t ≡ true
        → (r : EventBase) (i : ℕ) → IsBase r
        → IsBase (schedule depth r i e)) where
    abbrev reserved : EventBase
    reserved = (reserve_timeout heap_ok b e (some t)).0

    abbrev added : EventBase
    added = (add_inserted env reserved e).0

    added-IsBase : IsBase added
    added-IsBase = add_inserted-IsBase env reserved (reserved-IsBase heap_ok b e (some t) v) e

    steady : Steady b added
    steady = Steady-trans (reserved-Steady heap_ok b e (some t)) (added-Steady env reserved e)

    timed-IsBase :
        (reserve_timeout heap_ok b e (some t)).1 ≡ true
        → IsBase (add_timeout heap_ok (schedule depth) added e t abs)
    timed-IsBase room =
        add_timeout-IsBase heap_ok (schedule depth) added added-IsBase e t abs
          (added-room env reserved e (reserved-room heap_ok b e t fits.room room)) fits.small
          (λ i h.
            let (absolute, plain) = fits.internal i (sym (steady.owners i) ∙ h) in
            (absolute, Steady-common b added t steady ∙ plain))
          (λ h. scheduled (sym (Steady-common b added t steady) ∙ h))

    add_in-IsBase : IsBase (event_add_in env heap_ok (suc depth) b e (some t) abs).0
    unfolding event_add_in
    add_in-IsBase =
        IsBase-result (flags_of b e).finalizing _ _ (λ _. v)
          (λ _.
            IsBase-result (not (reserve_timeout heap_ok b e (some t)).1) _ _
              (λ _. reserved-IsBase heap_ok b e (some t) v)
              (λ room.
                IsBase-result (not (add_inserted env reserved e).1) _ _ (λ _. added-IsBase)
                  (λ _. timed-IsBase (ground (arith, room)))))

  scheduled-IsBase : (e : ℕ) (r : EventBase) (i : ℕ) → IsBase r → IsBase (schedule 1 r i e)
  scheduled-IsBase e r i v =
      add_in-IsBase 0 r v (r.common_timeout_queues i).timeout_event (masked (times r e)) true
        (record {
          small = ground arith;
          internal = λ j h. (refl, masked-plain r (times r e));
          room = λ on common. absurd (ground (arith, common, v.timed.plain i));
        })
        (λ common. absurd (ground (arith, common, masked-plain r (times r e))))

  -- event_add_nolock_ without a timeout keeps a base right, whether it succeeds or not. Descriptors and
  -- signals are below 2^27 in a base that is right.
  pub event_add-IsBase_untimed :
      (b : EventBase) (e : ℕ) (abs : Bool)
      → IsBase b
      → IsBase (event_add env heap_ok b e none abs).0
  unfolding event_add event_add_in reserve_timeout
  event_add-IsBase_untimed b e abs v =
      let added = add_inserted-IsBase env b v e in
      IsBase-result (flags_of b e).finalizing _ _ (λ _. v)
        (λ _. IsBase-result (not (add_inserted env b e).1) _ _ (λ _. added) (λ _. added))

  -- event_add_nolock_ with a timeout keeps a base right, whether it succeeds or not, also where the
  -- event becomes the first of a common timeout list and the list's own event is added in turn, under
  -- the conditions of Addable: the microseconds of the timeout are below 2^31; the event of a common
  -- timeout list only gets absolute times that are no common timeouts; and where the event waits in a
  -- common timeout list the heap has room for one more, which the code does not see to. Descriptors
  -- and signals are below 2^27 in a base that is right.
  pub event_add-IsBase :
      (b : EventBase) (e : ℕ) (t : Timeval) (tv_is_absolute : Bool)
      → IsBase b
      → Addable b e t tv_is_absolute
      → IsBase (event_add env heap_ok b e (some t) tv_is_absolute).0
  unfolding event_add
  event_add-IsBase b e t tv_is_absolute v fits =
      add_in-IsBase 1 b v e t tv_is_absolute fits (λ _. scheduled-IsBase e)
