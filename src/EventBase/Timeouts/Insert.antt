-- ===== src/EventBase/Timeouts/Insert.antt =====
-- event_queue_insert_timeout keeps the queues of timeouts right.
use libevent.Common.{
  ℕ, ◌+◌, ◌<◌, ◌&&◌, ◌||◌, ◌≡◌, ◌≢◌, Bool, true, false, not, List, ◌∷◌, ◌==◌, if◌then◌else◌, arith,
  count, one_if, Bool-cases, inl, inr, ◌∙◌, none, Option-cases,
}
use native.Mathlib.Decide.{ℕ_discrete}
use libevent.MinHeap
use libevent.MinHeap.{MinHeap}
use libevent.MinHeap.Refill.{IsHeap, has}
use libevent.MinHeap.Push.{push_adds, push-room}
use libevent.EventBase.State.{EventBase, flags_of, times, common_timeout_idx, is_common_timeout}
use libevent.EventBase.Timeouts.Defs.{Search, search_back, is_same_common_timeout, insert_timeout}
use libevent.EventBase.Timeouts.Common.{InOrder, Searched, search_back-Searched, AllSame-count}
use libevent.EventBase.Timeouts.Invariant.{
  common_list, in_list, IsClock, IsTimed, IsTimed-InRange, same_times-IsTimed,
}

module _ (realloc_ok : ℕ → Bool) (b : EventBase) (v : IsTimed b) (e : ℕ)
    (off : (flags_of b e).timeout ≡ false) where
  abbrev after : EventBase
  after = insert_timeout realloc_ok b e

  own_plain :
      (i : ℕ)
      → is_common_timeout after (times after (after.common_timeout_queues i).timeout_event) ≡ false
  unfolding insert_timeout is_common_timeout
  own_plain i = ground (arith, v.plain i)

  same-IsClock : IsClock after
  unfolding insert_timeout
  same-IsClock = record {
    cached = λ tv h. ground (arith, v.clock.cached tv, h);
    read = λ n. ground (arith, v.clock.read n);
  }

  module _ (plain : is_common_timeout b (times b e) ≡ false)
      (room : b.timeheap.n < b.timeheap.a) where
    new : b.timeheap.min_heap_idx e ≡ none
    new = elim (Option-cases (b.timeheap.min_heap_idx e)) [
      | inl missing ↦ missing
      | inr (i, here) ↦ absurd (ground (arith, v.in_heap e))
    ]

    pushed : MinHeap
    pushed = (MinHeap.push (times b) realloc_ok b.timeheap e).0

    pushed_lem :
        IsHeap (times b) pushed
        × (pushed.n ≡ b.timeheap.n + 1)
        × ((x : ℕ) → has pushed x ≡ (e == x || has b.timeheap x))
    unfolding pushed
    pushed_lem =
        (push_adds (times b) realloc_ok b.timeheap e (IsTimed-InRange v) v.heap new).0
          (push-room (times b) realloc_ok b.timeheap e room)

    plain_times : (x : ℕ) → times b x ≡ times after x
    unfolding insert_timeout
    plain_times x = ground (arith, off, plain)

    plain_heap : after.timeheap ≡ pushed
    unfolding insert_timeout pushed
    plain_heap = ground (arith, off, plain)

    plain_list : (i : ℕ) → common_list after i ≡ common_list b i
    unfolding insert_timeout
    plain_list i = ground (arith, off, plain)

    plain_in_heap :
        (x : ℕ)
        → has after.timeheap x
          ≡ ((flags_of after x).timeout && not (is_common_timeout after (times after x)))
    unfolding insert_timeout is_common_timeout pushed
    plain_in_heap x = ground (arith, v.in_heap x, pushed_lem.2 x)

    plain_in_common :
        (x i : ℕ) → count x (common_list after i) ≡ (if in_list after x i then 1 else 0)
    unfolding insert_timeout is_common_timeout
    plain_in_common x i = ground (arith, v.in_common x i)

    plain_fine : after.aborted ≡ false
    unfolding insert_timeout
    plain_fine = ground (arith, off, plain, v.fine)

    pub insert_plain-IsTimed : IsTimed after
    insert_plain-IsTimed =
        same_times-IsTimed v plain_times (rw plain_heap (pushed_lem.0)) plain_in_heap
          plain_in_common (λ i. rw (plain_list i) (v.ordered i)) own_plain same-IsClock plain_fine

  module _ (common : is_common_timeout b (times b e) ≡ true) where
    abbrev own : ℕ
    own = common_timeout_idx (times b e)

    -- The list that the search makes, and what is known of it.
    abbrev searched : Search
    searched = search_back (times b) e (common_list b own)

    abbrev placed : Search → List ℕ
    placed (Search.found l) = l
    placed Search.missing = e ∷ common_list b own
    placed Search.failed = common_list b own

    same :
        (a : ℕ)
        → 0 < count a (common_list b own)
        → is_same_common_timeout (times b a) (times b e) ≡ true
    unfolding is_common_timeout
    same a p = ground (arith, v.in_common a own, v.small a, v.small e)

    searched_lem : Searched (times b) (IsTimed-InRange v) e (common_list b own) searched
    searched_lem =
        search_back-Searched (times b) (IsTimed-InRange v) e (common_list b own) (v.ordered own)
          (AllSame-count (times b) e (common_list b own) same)

    placed_lem :
        (r : Search)
        → Searched (times b) (IsTimed-InRange v) e (common_list b own) r
        → (r ≢ Search.failed)
          × InOrder (times b) (placed r)
          × ((x : ℕ) → count x (placed r) ≡ count x (common_list b own) + one_if e x)
    placed_lem (Search.found l) h = (λ bad. cc, h.0, h.1)
    placed_lem Search.missing h = (λ bad. cc, (h, v.ordered own), λ x. omega arith)
    placed_lem Search.failed h = absurd h

    succeeds : searched ≢ Search.failed
    succeeds = (placed_lem searched searched_lem).0

    common_times : (x : ℕ) → times b x ≡ times after x
    unfolding insert_timeout
    common_times x = ground (arith, off, common)

    common_heap : after.timeheap ≡ b.timeheap
    unfolding insert_timeout
    common_heap = ground (arith, off, common)

    new_list :
        (i : ℕ) → common_list after i ≡ (if own == i then placed searched else common_list b i)
    unfolding insert_timeout
    new_list i = ground (arith, off, common, succeeds)

    common_in_heap :
        (x : ℕ)
        → has after.timeheap x
          ≡ ((flags_of after x).timeout && not (is_common_timeout after (times after x)))
    unfolding insert_timeout is_common_timeout
    common_in_heap x = ground (arith, v.in_heap x)

    common_in_list : (x i : ℕ) → in_list after x i ≡ (in_list b x i || (e == x && own == i))
    unfolding insert_timeout is_common_timeout
    common_in_list x i = ground (arith, off, common)

    not_in : (i : ℕ) → in_list b e i ≡ false
    not_in i = rw off

    count-own : (x : ℕ) → count x (placed searched) ≡ (if in_list after x own then 1 else 0)
    count-own x =
        (placed_lem searched searched_lem).2 x
        ∙ rw (v.in_common x own, common_in_list x own)
            (elim (ℕ_discrete e x) [
              | yes is ↦ rw (← is, not_in own) (ground arith)
              | no ne ↦ ground arith
            ])

    common_in_common :
        (x i : ℕ) → count x (common_list after i) ≡ (if in_list after x i then 1 else 0)
    common_in_common x i = elim (Bool-cases (own == i)) [
      | inl here ↦
          let at : own ≡ i = ground arith in rw (new_list i, here) (rw (← at) (count-own x))
      | inr other ↦ rw (new_list i, other, common_in_list x i) (ground (arith, v.in_common x i))
    ]

    common_ordered : (i : ℕ) → InOrder (times b) (common_list after i)
    common_ordered i = elim (Bool-cases (own == i)) [
      | inl here ↦ rw (new_list i, here) (placed_lem searched searched_lem).1
      | inr other ↦ rw (new_list i, other) (v.ordered i)
    ]

    common_fine : after.aborted ≡ false
    unfolding insert_timeout
    common_fine = ground (arith, off, common, v.fine, succeeds)

    pub insert_common-IsTimed : IsTimed after
    insert_common-IsTimed =
        same_times-IsTimed v common_times (rw common_heap v.heap) common_in_heap common_in_common
          common_ordered own_plain same-IsClock common_fine

-- event_queue_insert_timeout of an event that does not wait for its time, where the heap has room or
-- the event's time is a common timeout: no assertion fails, and the queues of timeouts stay right.
pub insert_timeout-IsTimed :
    (realloc_ok : ℕ → Bool) (b : EventBase) (e : ℕ)
    → IsTimed b
    → (flags_of b e).timeout ≡ false
    → (is_common_timeout b (times b e) ≡ false → b.timeheap.n < b.timeheap.a)
    → IsTimed (insert_timeout realloc_ok b e)
insert_timeout-IsTimed realloc_ok b e v off room =
    elim (Bool-cases (is_common_timeout b (times b e))) [
      | inl common ↦ insert_common-IsTimed realloc_ok b v e off common
      | inr plain ↦ insert_plain-IsTimed realloc_ok b v e off plain (room plain)
    ]
