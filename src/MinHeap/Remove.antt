-- ===== src/MinHeap/Remove.antt =====
-- min_heap_pop_ and min_heap_erase_.
use libevent.Common.{
  ℕ, zero, suc, ◌+◌, ◌-◌, ◌≤◌, ◌<◌, ◌≡◌, ◌≢◌, refl, true, false, not, ◌&&◌, arith, ltb, ◌==◌, some,
  none, Bool-cases, Option-cases, inl, inr,
}
use native.Mathlib.Decide.{ℕ_discrete}
use libevent.Timeval.{Timeval}
use libevent.MinHeap.Defs.{
  MinHeap, place, elem_init, parent, elem_greater, shift_down_loop, shift_down, refill, top,
  elt_is_top, pop, erase,
}
use libevent.MinHeap.Index.{HasHole, elem_init-IsIndexed}
use libevent.MinHeap.Order.{InRange, key, IsOrdered-key, elem_greater-key}
use libevent.MinHeap.Shift.{Placed, shift_down-Placed}
use libevent.MinHeap.Refill.{has, IsHeap, IsOrderedAround, refill-Placed}

-- What is left when `d` leaves `s`.
pub record Removed (tm : ℕ → Timeval) (s : MinHeap) (d : ℕ) (r : MinHeap) : Type 0 where
  pub heap : IsHeap tm r
  pub size : r.n + 1 ≡ s.n
  pub allocated : r.a ≡ s.a
  pub members : (x : ℕ) → has r x ≡ (has s x && not (d == x))

module _ (tm : ℕ → Timeval) (range : InRange tm) (s : MinHeap) (v : IsHeap tm s) where
  abbrev shorter : MinHeap
  shorter = record s { n = s.n - 1 }

  abbrev last : ℕ
  last = s.p (s.n - 1)

  module _ (i : ℕ) (inside : i < s.n - 1) where
    shorter-HasHole : HasHole shorter i last (s.p i)
    shorter-HasHole =
        let end = v.indexed.at (s.n - 1) (omega arith) in
        let here = v.indexed.at i (omega arith) in
        record {
          at = λ j p q. v.indexed.at j (omega arith);
          other = λ j p q. ground (arith, v.indexed.at j (omega arith), end, here);
          back = λ x j p q r. ground (arith, v.indexed.back x j r);
        }

    shorter-IsOrderedAround : IsOrderedAround tm shorter i
    shorter-IsOrderedAround =
        let below = IsOrdered-key tm range s v.ordered in
        record {
          edges = λ c p q r t. below c p (omega arith);
          bridged =
              λ c pos p q r. ground (arith, below c p (omega arith), below i pos (omega arith));
        }

    -- The last entry fills the place of another.
    Placed-Removed :
        {r : MinHeap}
        → Placed tm shorter last (s.p i) r
        → Removed tm s (s.p i) (elem_init r (s.p i))
    Placed-Removed {r} q =
        let here = v.indexed.at i (omega arith) in
        let end = v.indexed.at (s.n - 1) (omega arith) in
        let ne : s.p i ≢ last = λ e. ground (arith, here, end) in
        rw q.result (record {
          heap = record {
            indexed = elem_init-IsIndexed q.inside ne q.holed;
            ordered = unfold elem_init in q.ordered;
            room = unfold elem_init place in omega (arith, q.size, q.room, v.room);
          };
          size = unfold elem_init place in omega (arith, q.size);
          allocated = unfold elem_init place in q.room;
          members = λ x. unfold elem_init place in ground (arith, q.members x, end);
        })

  -- The last entry leaves: the shift writes it back behind the new end.
  last-Removed : 0 < s.n → Removed tm s last (elem_init (place shorter (s.n - 1) last) last)
  unfolding elem_init place
  last-Removed pos =
      let end = v.indexed.at (s.n - 1) (omega arith) in
      record {
        heap = record {
          indexed = record {
            at = λ i p. ground (arith, v.indexed.at i (omega arith), end);
            back = λ x i p. ground (arith, v.indexed.back x i, end);
          };
          ordered = λ c p q. ground (arith, v.ordered c p (omega arith));
          room = omega (arith, v.room);
        };
        size = omega arith;
        allocated = refl;
        members = λ x. ground (arith, end);
      }

  shift_down-last : shift_down tm shorter (s.n - 1) last ≡ place shorter (s.n - 1) last
  unfolding shift_down
  shift_down-last =
      let e : s.n - 1 - (s.n - 1) ≡ 0 = omega arith in rw e (unfold shift_down_loop in refl)

  refill-last : 0 < s.n → refill tm shorter (s.n - 1) last ≡ place shorter (s.n - 1) last
  unfolding refill
  refill-last pos =
      elim (Bool-cases (ltb 0 (s.n - 1) && elem_greater tm (s.p (parent (s.n - 1))) last)) [
        | inl up ↦ absurd (ground (arith, v.ordered (s.n - 1)))
        | inr down ↦ rw down shift_down-last
      ]

  refill-Removed :
      (i : ℕ) → i < s.n → Removed tm s (s.p i) (elem_init (refill tm shorter i last) (s.p i))
  refill-Removed i inside = elim (ℕ_discrete i (s.n - 1)) [
    | yes e ↦ rw (e, refill-last (omega arith)) (last-Removed (omega arith))
    | no ne ↦ Placed-Removed i (omega arith) (
        refill-Placed tm range shorter i last (omega arith) (shorter-HasHole i (omega arith))
          (shorter-IsOrderedAround i (omega arith)))
  ]

  -- min_heap_erase_ on a heap: an event that the heap holds leaves it, and the result is a heap of
  -- one entry less with all the other events; otherwise it fails and changes nothing.
  pub erase-Removed :
      (e : ℕ)
      → let (r, ok) = erase tm s e in
        (has s e ≡ true → (ok ≡ true) × Removed tm s e r)
        × (has s e ≡ false → (ok ≡ false) × (r ≡ s))
  unfolding erase
  erase-Removed e = elim (Option-cases (s.min_heap_idx e)) [
    | inl missing ↦ rw (missing, erase) (λ bad. cc, λ _. (refl, refl))
    | inr (i, here) ↦
        let (inside, at) = v.indexed.back e i here in
        rw (here, erase) (λ _. (refl, rw at at (refill-Removed i inside)), λ bad. cc)
  ]

  root_least : (fuel i : ℕ) → i ≤ fuel → i < s.n → key tm (s.p 0) ≤ key tm (s.p i)
  root_least zero i f p = let e : i ≡ 0 = omega arith in rw e (omega arith)
  root_least (suc fuel) i f p =
      ground (arith, IsOrdered-key tm range s v.ordered i, root_least fuel (parent i) (omega arith))

  -- The event at the top is held by the heap, and no event of the heap is earlier.
  pub top_least :
      (e : ℕ)
      → top s ≡ some e
      → (has s e ≡ true)
        × ((x : ℕ) → has s x ≡ true → elem_greater tm e x ≡ false)
        × (elt_is_top s e ≡ true)
  unfolding top elt_is_top
  top_least e h = let root = v.indexed.at 0 in (ground (arith, root), least, ground (arith, root))
    where
      least : (x : ℕ) → has s x ≡ true → elem_greater tm e x ≡ false
      least x hx = elim (Option-cases (s.min_heap_idx x)) [
        | inl missing ↦ absurd (ground arith)
        | inr (i, here) ↦ ground (
          arith,
          v.indexed.back x i here,
          root_least i i (omega arith),
          elem_greater-key tm range e x,
        )
      ]

  sink_root-Removed :
      0 < s.n → Removed tm s (s.p 0) (elem_init (shift_down tm shorter 0 last) (s.p 0))
  sink_root-Removed pos = elim (ℕ_discrete 0 (s.n - 1)) [
    | yes e ↦ rw (e, shift_down-last) (last-Removed pos)
    | no ne ↦
        let around = shorter-IsOrderedAround 0 (omega arith) in
        Placed-Removed 0 (omega arith) (
          shift_down-Placed tm range shorter 0 last (omega arith) (shorter-HasHole 0 (omega arith))
            (record {
              edges = around.edges;
              above = λ p. absurd (omega arith);
              bridged = around.bridged;
            }))
  ]

  -- min_heap_pop_ on a heap: with no entry it gives no event and changes nothing; otherwise it gives
  -- the event at the top, and the result is a heap of one entry less with all the other events.
  pub pop-Removed :
      ((s.n ≡ 0) → pop tm s ≡ (s, none))
      × ((e : ℕ) → top s ≡ some e → ((pop tm s).1 ≡ some e) × Removed tm s e (pop tm s).0)
  unfolding pop top
  pop-Removed = (
    λ z. ground arith,
    λ e h. elim (Bool-cases (s.n == 0)) [
      | inl none_left ↦ absurd (ground arith)
      | inr some_left ↦
          let at : s.p 0 ≡ e = ground arith in
          rw (some_left, ← at) (refl, sink_root-Removed (ground arith))
    ],
  )
