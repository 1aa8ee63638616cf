-- ===== src/EventBase/Timeouts/Invariant.antt =====
-- The queues of timeouts against the flags and the times of the events: what
-- event_base_assert_ok_nolock_ checks of the heap and of the common timeout lists.
use libevent.Common.{
  ℕ, ◌<◌, ◌^◌, ◌&&◌, ◌≡◌, Bool, true, false, not, List, ◌==◌, if◌then◌else◌, remove, arith, count,
  Bool-cases, inl, inr, count-remove, some, sym,
}
use mathlib.Core.Path.{subst, fun_ext}
use libevent.Timeval.{Timeval}
use libevent.MinHeap
use libevent.MinHeap.{MinHeap}
use libevent.MinHeap.Order.{InRange}
use libevent.MinHeap.Refill.{IsHeap, has}
use libevent.MinHeap.Remove.{Removed, erase-Removed}
use libevent.EventBase.State.{EventBase, flags_of, times, common_timeout_idx, is_common_timeout}
use libevent.EventBase.Timeouts.Defs.{remove_timeout}
use libevent.EventBase.Timeouts.Common.{InOrder, InOrder-remove, InOrder-agree}

abbrev pub common_list : EventBase → ℕ → List ℕ
common_list b i = (b.common_timeout_queues i).events

-- Whether the event waits in the common timeout list of an index.
abbrev pub in_list : EventBase → ℕ → ℕ → Bool
in_list b e i =
    (flags_of b e).timeout && is_common_timeout b (times b e) && common_timeout_idx (times b e) == i

-- The times that the base reads have less than a second of microseconds.
pub record IsClock (b : EventBase) : Type 0 where
  pub cached : (tv : Timeval) → b.tv_cache ≡ some tv → tv.tv_usec < 1000000
  pub read : (n : ℕ) → (b.clock n).tv_usec < 1000000

-- The heap is one, by the events' times. An event with EVLIST_TIMEOUT waits in exactly one place: once
-- in the list of its common timeout, if it has one, and otherwise in the heap. The lists are in order, and their
-- own events have no common timeout.
pub record IsTimed (b : EventBase) : Type 0 where
  pub heap : IsHeap (times b) b.timeheap
  pub small : (e : ℕ) → (times b e).tv_usec < 2 ^ 32
  pub in_heap :
      (e : ℕ) → has b.timeheap e ≡ ((flags_of b e).timeout && not (is_common_timeout b (times b e)))
  pub in_common : (e i : ℕ) → count e (common_list b i) ≡ (if in_list b e i then 1 else 0)
  pub ordered : (i : ℕ) → InOrder (times b) (common_list b i)
  pub plain :
      (i : ℕ) → is_common_timeout b (times b (b.common_timeout_queues i).timeout_event) ≡ false
  pub clock : IsClock b
  pub fine : b.aborted ≡ false

pub IsTimed-InRange : {b : EventBase} → IsTimed b → InRange (times b)
IsTimed-InRange v e = omega (arith, v.small e)

pub IsHeap-agree :
    (tm tm' : ℕ → Timeval) (s : MinHeap) → ((e : ℕ) → tm e ≡ tm' e) → IsHeap tm s → IsHeap tm' s
IsHeap-agree tm tm' s h v = subst (λ (t : ℕ → Timeval). IsHeap t s) (fun_ext h) v

-- A base whose events have the times of `b`, with a heap and lists for those times.
pub same_times-IsTimed :
    {b r : EventBase}
    → IsTimed b
    → ((x : ℕ) → times b x ≡ times r x)
    → IsHeap (times b) r.timeheap
    → ((x : ℕ)
        → has r.timeheap x ≡ ((flags_of r x).timeout && not (is_common_timeout r (times r x))))
    → ((x i : ℕ) → count x (common_list r i) ≡ (if in_list r x i then 1 else 0))
    → ((i : ℕ) → InOrder (times b) (common_list r i))
    → ((i : ℕ) → is_common_timeout r (times r (r.common_timeout_queues i).timeout_event) ≡ false)
    → IsClock r
    → r.aborted ≡ false
    → IsTimed r
same_times-IsTimed {b} {r} v same heap in_heap in_common ordered plain clock fine = record {
  heap = IsHeap-agree (times b) (times r) r.timeheap same heap;
  small = λ x. rw (← same x) (v.small x);
  in_heap = in_heap;
  in_common = in_common;
  ordered =
      λ i. InOrder-agree (times b) (times r) (common_list r i) (λ a p. sym (same a)) (ordered i);
  plain = plain;
  clock = clock;
  fine = fine;
}

module _ (b : EventBase) (v : IsTimed b) (e : ℕ) (on : (flags_of b e).timeout ≡ true) where
  same_times : (x : ℕ) → times b x ≡ times (remove_timeout b e) x
  unfolding remove_timeout
  same_times x = ground (arith, on)

  remove_fine : (remove_timeout b e).aborted ≡ false
  unfolding remove_timeout
  remove_fine = ground (arith, v.fine)

  own_plain :
      (i : ℕ)
      → is_common_timeout
          (remove_timeout b e)
          (times (remove_timeout b e) ((remove_timeout b e).common_timeout_queues i).timeout_event)
        ≡ false
  unfolding remove_timeout is_common_timeout
  own_plain i = ground (arith, v.plain i)

  same-IsClock : IsClock (remove_timeout b e)
  unfolding remove_timeout
  same-IsClock = record {
    cached = λ tv h. ground (arith, v.clock.cached tv, h);
    read = λ n. ground (arith, v.clock.read n);
  }

  module _ (plain : is_common_timeout b (times b e) ≡ false) where
    gone : Removed (times b) b.timeheap e (MinHeap.erase (times b) b.timeheap e).0
    gone =
        ((erase-Removed (times b) (IsTimed-InRange v) b.timeheap v.heap e).0
          (ground (arith, v.in_heap e))).1

    plain_heap : (remove_timeout b e).timeheap ≡ (MinHeap.erase (times b) b.timeheap e).0
    unfolding remove_timeout
    plain_heap = ground (arith, on, plain)

    plain_list : (i : ℕ) → common_list (remove_timeout b e) i ≡ common_list b i
    unfolding remove_timeout
    plain_list i = ground (arith, on, plain)

    plain_in_heap :
        (x : ℕ)
        → has (remove_timeout b e).timeheap x ≡ (
            (flags_of (remove_timeout b e) x).timeout
            && not (is_common_timeout (remove_timeout b e) (times (remove_timeout b e) x)))
    unfolding remove_timeout is_common_timeout
    plain_in_heap x = ground (arith, v.in_heap x, gone.members x)

    plain_in_common :
        (x i : ℕ)
        → count x (common_list (remove_timeout b e) i)
          ≡ (if in_list (remove_timeout b e) x i then 1 else 0)
    unfolding remove_timeout is_common_timeout
    plain_in_common x i = ground (arith, v.in_common x i)

    remove_plain-IsTimed : IsTimed (remove_timeout b e)
    remove_plain-IsTimed =
        same_times-IsTimed v same_times (rw plain_heap gone.heap) plain_in_heap plain_in_common
          (λ i. rw (plain_list i) (v.ordered i)) own_plain same-IsClock remove_fine

  module _ (common : is_common_timeout b (times b e) ≡ true) where
    common_heap : (remove_timeout b e).timeheap ≡ b.timeheap
    unfolding remove_timeout
    common_heap = ground (arith, on, common)

    left_list :
        (i : ℕ)
        → common_list (remove_timeout b e) i ≡ (
            if common_timeout_idx (times b e) == i
            then remove e (common_list b i)
            else common_list b i)
    unfolding remove_timeout
    left_list i = ground (arith, on, common)

    common_in_heap :
        (x : ℕ)
        → has (remove_timeout b e).timeheap x ≡ (
            (flags_of (remove_timeout b e) x).timeout
            && not (is_common_timeout (remove_timeout b e) (times (remove_timeout b e) x)))
    unfolding remove_timeout is_common_timeout
    common_in_heap x = ground (arith, v.in_heap x)

    common_in_common :
        (x i : ℕ)
        → count x (common_list (remove_timeout b e) i)
          ≡ (if in_list (remove_timeout b e) x i then 1 else 0)
    unfolding remove_timeout is_common_timeout
    common_in_common x i = ground (arith, v.in_common x i, count-remove x e (common_list b i))

    left_ordered : (i : ℕ) → InOrder (times b) (common_list (remove_timeout b e) i)
    left_ordered i = elim (Bool-cases (common_timeout_idx (times b e) == i)) [
      | inl here ↦
          rw (left_list i, here) (InOrder-remove (times b) e (common_list b i) (v.ordered i))
      | inr other ↦ rw (left_list i, other) (v.ordered i)
    ]

    remove_common-IsTimed : IsTimed (remove_timeout b e)
    remove_common-IsTimed =
        same_times-IsTimed v same_times (rw common_heap v.heap) common_in_heap common_in_common
          left_ordered own_plain same-IsClock remove_fine

  -- event_queue_remove_timeout of an event that waits for its time: no assertion fails, and the queues
  -- of timeouts stay right.
  pub remove_timeout-IsTimed : IsTimed (remove_timeout b e)
  remove_timeout-IsTimed = elim (Bool-cases (is_common_timeout b (times b e))) [
    | inl common ↦ remove_common-IsTimed common
    | inr plain ↦ remove_plain-IsTimed plain
  ]
