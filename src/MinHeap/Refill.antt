-- ===== src/MinHeap/Refill.antt =====
-- What a heap is, and what is left of one with a hole in it once the hole is filled.
use libevent.Common.{
  ℕ, ◌+◌, ◌≤◌, ◌<◌, ◌≡◌, ◌≢◌, Bool, ◌&&◌, ◌||◌, arith, ltb, ◌==◌, is_some, none, Bool-cases, inl,
  inr,
}
use libevent.Timeval.{Timeval}
use libevent.MinHeap.Defs.{MinHeap, place, parent, elem_greater, refill}
use libevent.MinHeap.Index.{IsIndexed, HasHole, place-IsIndexed}
use libevent.MinHeap.Order.{IsOrdered, InRange, key, elem_greater-key}
use libevent.MinHeap.Shift.{Placed, shift_up_unconditional-Placed, shift_down-Placed}

-- The heap holds the event, by the event's own index.
abbrev pub has : MinHeap → ℕ → Bool
has s x = is_some (s.min_heap_idx x)

pub record IsHeap (tm : ℕ → Timeval) (s : MinHeap) : Type 0 where
  pub indexed : IsIndexed s
  pub ordered : IsOrdered tm s
  pub room : s.n ≤ s.a

-- All is in order but the edges at `h`, and the edges across it are.
pub record IsOrderedAround (tm : ℕ → Timeval) (s : MinHeap) (h : ℕ) : Type 0 where
  pub edges :
      (c : ℕ) → 0 < c → c < s.n → c ≢ h → parent c ≢ h → key tm (s.p (parent c)) ≤ key tm (s.p c)
  pub bridged :
      (c : ℕ) → 0 < h → 0 < c → c < s.n → parent c ≡ h → key tm (s.p (parent h)) ≤ key tm (s.p c)

module _ (tm : ℕ → Timeval) (range : InRange tm) where
  pub refill-Placed :
      (s : MinHeap) (h e : ℕ) {d : ℕ}
      → h < s.n
      → HasHole s h e d
      → IsOrderedAround tm s h
      → Placed tm s e d (refill tm s h e)
  unfolding refill
  refill-Placed s h e inside v o =
      let cmp = elem_greater-key tm range (s.p (parent h)) e in
      elim (Bool-cases (ltb 0 h && elem_greater tm (s.p (parent h)) e)) [
        | inl up ↦
            let lt : key tm e < key tm (s.p (parent h)) = ground (arith, cmp) in
            let pos : 0 < h = ground arith in
            rw up (
              shift_up_unconditional-Placed tm range s h e pos inside v
                (record {
                  edges = o.edges;
                  below = λ c p q r. omega (arith, o.bridged c pos p q r);
                  bridged = o.bridged;
                })
                lt)
        | inr down ↦ rw down (
            shift_down-Placed tm range s h e inside v
              (record { edges = o.edges; above = λ pos. ground (arith, cmp); bridged = o.bridged }))
      ]

  -- A shift of `e`, which the heap did not hold, or again does, ends in a heap.
  pub Placed-IsHeap :
      {s : MinHeap} {e : ℕ} {r : MinHeap} → s.n ≤ s.a → Placed tm s e e r → IsHeap tm r
  Placed-IsHeap {s} {e} {r} room q = rw q.result (record {
    indexed = place-IsIndexed q.inside q.holed;
    ordered = q.ordered;
    room = unfold place in omega (arith, q.size, q.room);
  })

  pub Placed-has :
      {s : MinHeap} {e d : ℕ} {r : MinHeap}
      → Placed tm s e d r
      → (x : ℕ) → has r x ≡ (e == x || has s x)
  Placed-has {s} {e} {d} {r} q x = rw q.result (unfold place in ground (arith, q.members x))

  pub Placed-size :
      {s : MinHeap} {e d : ℕ} {r : MinHeap} → Placed tm s e d r → (r.n ≡ s.n) × (r.a ≡ s.a)
  Placed-size q = rw q.result (unfold place in (q.size, q.room))

  -- The heap as it stands when push makes room behind its end.
  pub push-HasHole :
      (s : MinHeap) (e : ℕ)
      → IsIndexed s
      → s.min_heap_idx e ≡ none
      → HasHole (record s { n = s.n + 1 }) s.n e e
  push-HasHole s e v new = record {
    at = λ i p q. v.at i (omega arith);
    other = λ i p q. ground (arith, v.at i);
    back = λ x i p q r. ground (arith, v.back x i);
  }
