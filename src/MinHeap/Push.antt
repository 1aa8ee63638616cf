-- ===== src/MinHeap/Push.antt =====
-- min_heap_reserve_, min_heap_push_ and min_heap_adjust_.
use libevent.Common.{
  ℕ, ◌+◌, ◌≤◌, ◌<◌, ◌≡◌, ◌≢◌, refl, Bool, true, false, ◌||◌, arith, ◌==◌, is_some, some, none,
  Bool-cases, inl, inr, ◌∙◌, ap,
}
use libevent.Timeval.{Timeval, rank}
use libevent.MinHeap.Defs.{MinHeap, parent, reserve, shift_up, push, adjust}
use libevent.MinHeap.Index.{HasHole}
use libevent.MinHeap.Order.{InRange, IsOrdered-key}
use libevent.MinHeap.Shift.{shift_up-Placed}
use libevent.MinHeap.Refill.{
  has, IsHeap, IsOrderedAround, refill-Placed, Placed-IsHeap, Placed-has, Placed-size, push-HasHole,
}

-- min_heap_reserve_ leaves all but the allocated size alone, does not lower that, and where it
-- succeeds there is room for `n` entries; where it fails nothing changes.
pub reserve_room :
    (realloc_ok : ℕ → Bool) (s : MinHeap) (n : ℕ)
    → let (s', ok) = reserve realloc_ok s n in
      (s' ≡ record s { a = s'.a }) × (s.a ≤ s'.a) × (ok ≡ true → n ≤ s'.a) × (ok ≡ false → s' ≡ s)
unfolding reserve
reserve_room realloc_ok s n = ground arith

-- A heap with room for the event, which it does not hold.
filled :
    (tm : ℕ → Timeval) (s : MinHeap) (e : ℕ)
    → InRange tm
    → IsHeap tm s
    → s.min_heap_idx e ≡ none
    → s.n + 1 ≤ s.a
    → let s' = shift_up tm (record s { n = s.n + 1 }) s.n e in
      IsHeap tm s' × (s'.n ≡ s.n + 1) × ((x : ℕ) → has s' x ≡ (e == x || has s x))
filled tm s e range v new room =
    let below = IsOrdered-key tm range s v.ordered in
    let q =
      shift_up-Placed tm range (record s { n = s.n + 1 }) s.n e (omega arith)
        (push-HasHole tm range s e v.indexed new)
        (record {
          edges = λ c p q r t. below c p (omega arith);
          below = λ c p q r. absurd (omega arith);
          bridged = λ c p q r t. absurd (omega arith);
        }) in
    (Placed-IsHeap tm range room q, (Placed-size tm range q).0, Placed-has tm range q)

-- min_heap_reserve_ leaves the heap as it is, whether it succeeds or not.
pub reserve-IsHeap :
    (tm : ℕ → Timeval) (realloc_ok : ℕ → Bool) (s : MinHeap) (n : ℕ)
    → IsHeap tm s
    → let s' = (reserve realloc_ok s n).0 in
      IsHeap tm s' × (s'.n ≡ s.n) × (s'.min_heap_idx ≡ s.min_heap_idx)
reserve-IsHeap tm realloc_ok s n v =
    let (same, grown, room, failed) = reserve_room realloc_ok s n in
    (
      rw same (record {
        indexed = record { at = v.indexed.at; back = v.indexed.back };
        ordered = v.ordered;
        room = omega (arith, v.room, grown);
      }),
      ap (λ (t : MinHeap). t.n) same,
      ap (λ (t : MinHeap). t.min_heap_idx) same,
    )

-- min_heap_push_ of an event that is not in the heap: where it succeeds the result is a heap of one
-- more entry, which holds that event and what it held; where it fails the heap is unchanged.
pub push_adds :
    (tm : ℕ → Timeval) (realloc_ok : ℕ → Bool) (s : MinHeap) (e : ℕ)
    → InRange tm
    → IsHeap tm s
    → s.min_heap_idx e ≡ none
    → let (s', ok) = push tm realloc_ok s e in
      (ok ≡ true → IsHeap tm s' × (s'.n ≡ s.n + 1) × ((x : ℕ) → has s' x ≡ (e == x || has s x)))
      × (ok ≡ false → s' ≡ s)
unfolding push
push_adds tm realloc_ok s e range v new =
    let (same, grown, room, failed) = reserve_room realloc_ok s (s.n + 1) in
    let s' = (reserve realloc_ok s (s.n + 1)).0 in
    let (v', size, idx) = reserve-IsHeap tm realloc_ok s (s.n + 1) v in
    elim (Bool-cases (reserve realloc_ok s (s.n + 1)).1) [
      | inl ok ↦
          let (heap, more, members) =
            filled tm s' e range v' (rw idx new) (omega (arith, room ok)) in
          rw ok (
            λ _. (heap, omega arith, λ x. members x ∙ ap (λ m. e == x || is_some (m x)) idx),
            λ bad. cc,
          )
      | inr refused ↦ rw refused (λ good. cc, λ _. failed refused)
    ]

-- With room allocated min_heap_push_ cannot fail.
pub push-room :
    (tm : ℕ → Timeval) (realloc_ok : ℕ → Bool) (s : MinHeap) (e : ℕ)
    → s.n < s.a
    → (push tm realloc_ok s e).1 ≡ true
unfolding push reserve
push-room tm realloc_ok s e h = ground arith

-- After min_heap_reserve_ for one more entry has succeeded, min_heap_push_ cannot fail, whatever
-- the allocator does.
pub push-reserve :
    (tm : ℕ → Timeval) (before after : ℕ → Bool) (s : MinHeap) (e : ℕ)
    → (reserve before s (s.n + 1)).1 ≡ true
    → (push tm after (reserve before s (s.n + 1)).0 e).1 ≡ true
unfolding push reserve
push-reserve tm before after s e h = ground arith

-- min_heap_adjust_ after the time of an event has changed from that of `old` to that of `tm`: an
-- event of the heap stays in it, and the result is a heap for the new times with the same events.
pub adjust-IsHeap :
    (old tm : ℕ → Timeval) (realloc_ok : ℕ → Bool) (s : MinHeap) (e i : ℕ)
    → InRange old
    → InRange tm
    → ((x : ℕ) → x ≢ e → old x ≡ tm x)
    → IsHeap old s
    → s.min_heap_idx e ≡ some i
    → let (s', ok) = adjust tm realloc_ok s e in
      (ok ≡ true) × IsHeap tm s' × (s'.n ≡ s.n) × ((x : ℕ) → has s' x ≡ has s x)
unfolding adjust
adjust-IsHeap old tm realloc_ok s e i range_old range same v here =
    let (inside, at) = v.indexed.back e i here in
    let below = IsOrdered-key old range_old s v.ordered in
    let keys = λ (x : ℕ) (ne : x ≢ e). ap rank (same x ne) in
    let hole : HasHole s i e e = record {
      at = λ j p q. v.indexed.at j p;
      other = λ j p q. ground (arith, v.indexed.at j p, at, here);
      back = λ x j p q r. ground (arith, v.indexed.back x j r);
    } in
    let others = λ (j : ℕ) (p : j < s.n) (q : j ≢ i). keys (s.p j) (hole.other j p q).0 in
    let around : IsOrderedAround tm s i = record {
      edges =
          λ c p q r t. omega (arith, others (parent c) (omega arith) t, others c q r, below c p q);
      bridged = λ c pos p q r. ground (
        arith,
        others (parent i) (omega arith) (omega arith),
        others c q (omega arith),
        below c p q,
        below i pos inside,
      );
    } in
    let q = refill-Placed tm range s i e inside hole around in
    rw (here, adjust)
      (
        refl,
        Placed-IsHeap tm range v.room q,
        (Placed-size tm range q).0,
        λ x. Placed-has tm range q x ∙ ground (arith, here),
      )
