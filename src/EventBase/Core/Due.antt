-- ===== src/EventBase/Core/Due.antt =====
-- Setting the time of an event that does not wait for it keeps an event base right.
use libevent.Common.{ℕ, ◌≡◌, ◌≢◌, ◌<◌, ◌^◌, Bool, false, arith, refl, count, Option-cases, inl, inr}
use libevent.Timeval.{Timeval, timeradd}
use libevent.MinHeap.{parent}
use libevent.MinHeap.Refill.{IsHeap}
use libevent.EventBase.State.{EventBase, flags_of, times, is_common_timeout}
use libevent.EventBase.Timeouts.Invariant.{IsTimed, IsClock, common_list}
use libevent.EventBase.Timeouts.Common.{InOrder-agree}
use libevent.EventBase.Core.Defs.{gettime}
use libevent.EventBase.Core.AddDefs.{due, set_due}
use libevent.EventBase.Core.Agree.{IsQueued-agree}
use libevent.EventBase.Core.Base.{IsBase, IsMapped-agree}

module _ (b : EventBase) (v : IsBase b) (e : ℕ) (off : (flags_of b e).timeout ≡ false) where
  absent : (i : ℕ) → i < b.timeheap.n → b.timeheap.p i ≢ e
  absent i p q = ground (arith, v.timed.heap.indexed.at i p, v.timed.in_heap e)

  not_listed : (a i : ℕ) → 0 < count a (common_list b i) → a ≢ e
  not_listed a i p q = ground (arith, v.timed.in_common a i)

  module _ (tv : Timeval) (small : tv.tv_usec < 2 ^ 32)
      (internal : (i : ℕ)
        → (b.common_timeout_queues i).timeout_event ≡ e
        → is_common_timeout b tv ≡ false) where
    due-IsHeap : IsHeap (times (set_due b e tv)) b.timeheap
    due-IsHeap = record {
      indexed = v.timed.heap.indexed;
      ordered = λ c p q.
          ground (arith, absent c q, absent (parent c) (omega arith), v.timed.heap.ordered c p q);
      room = v.timed.heap.room;
    }

    due-IsTimed : IsTimed (set_due b e tv)
    unfolding is_common_timeout
    due-IsTimed = record {
      heap = due-IsHeap;
      small = λ x. ground (arith, v.timed.small x, small);
      in_heap = λ x. ground (arith, v.timed.in_heap x);
      in_common = λ x i. ground (arith, v.timed.in_common x i);
      ordered = λ i.
          InOrder-agree (times b) (times (set_due b e tv)) (common_list b i)
            (λ a p. ground (arith, not_listed a i p)) (v.timed.ordered i);
      plain = λ i. ground (arith, internal i, v.timed.plain i);
      clock = record { cached = v.timed.clock.cached; read = v.timed.clock.read };
      fine = v.timed.fine;
    }

    pub set_due-IsBase : IsBase (set_due b e tv)
    set_due-IsBase = record {
      queued =
          IsQueued-agree
            (record {
              activequeues = λ q. refl;
              later = refl;
              nactivequeues = refl;
              counted = refl;
              active = λ x. ground arith;
              active_later = λ x. ground arith;
              pris = λ x. ground arith;
              fine = v.timed.fine;
            })
            v.queued;
      timed = due-IsTimed;
      mapped =
          IsMapped-agree
            (record {
              evmap = refl;
              wants = λ x. ground arith;
              fd = λ x. ground arith;
              inserted = λ x. ground arith;
            })
            v.mapped;
    }

-- The time that is due has its microseconds in 32 bits.
pub due_small :
    (b : EventBase) (now tv : Timeval) (tv_is_absolute : Bool)
    → now.tv_usec < 1000000
    → tv.tv_usec < 2 ^ 31
    → (due b now tv tv_is_absolute).tv_usec < 2 ^ 32
unfolding due timeradd
due_small b now tv tv_is_absolute h k = ground arith

pub gettime-normal : (b : EventBase) → IsClock b → (gettime b).1.tv_usec < 1000000
unfolding gettime
gettime-normal b v = elim (Option-cases b.tv_cache) [
  | inl missing ↦ rw missing (v.read 0)
  | inr (tv, here) ↦ rw here (v.cached tv here)
]
