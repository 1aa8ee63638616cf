-- ===== src/MinHeap/Shift.antt =====
-- min_heap_shift_up_, min_heap_shift_up_unconditional_ and min_heap_shift_down_.
use libevent.Common.{
  ℕ, zero, suc, ◌+◌, ◌-◌, ◌*◌, ◌≤◌, ◌<◌, ◌≡◌, ◌≢◌, refl, ◌&&◌, arith, ltb, leb, is_some, Bool-cases,
  inl, inr, ◌∙◌,
}
use libevent.Timeval.{Timeval}
use libevent.MinHeap.Defs.{
  MinHeap, place, parent, elem_greater, min_child, shift_up_loop, shift_up, shift_up_unconditional,
  shift_down_loop, shift_down,
}
use libevent.MinHeap.Index.{HasHole, place-HasHole, place-members}
use libevent.MinHeap.Order.{
  IsOrdered, InRange, key, CanRise, CanSink, elem_greater-key, place-CanRise, risen-IsOrdered,
  min_child-IsMinChild, place-CanSink, sunk-IsOrdered,
}

-- How a shift of `e` from a hole of `s` ends: `e` stands at `hole` of `rest`, which has the events of
-- `s`, and the heap is in order.
pub record Placed (tm : ℕ → Timeval) (s : MinHeap) (e d : ℕ) (r : MinHeap) : Type 0 where
  pub rest : MinHeap
  pub hole : ℕ
  pub result : r ≡ place rest hole e
  pub holed : HasHole rest hole e d
  pub inside : hole < rest.n
  pub size : rest.n ≡ s.n
  pub room : rest.a ≡ s.a
  pub members : (x : ℕ) → is_some (rest.min_heap_idx x) ≡ is_some (s.min_heap_idx x)
  pub ordered : IsOrdered tm (place rest hole e)

-- A shift after one move ends as the whole does.
Placed-place :
    {tm : ℕ → Timeval} {s : MinHeap} {h e d : ℕ} {r : MinHeap}
    → (v : HasHole s h e d) → (j : ℕ) → j < s.n
    → j ≢ h
    → Placed tm (place s h (s.p j)) e d r
    → Placed tm s e d r
unfolding place
Placed-place v j inside ne q = record {
  rest = q.rest;
  hole = q.hole;
  result = q.result;
  holed = q.holed;
  inside = q.inside;
  size = q.size;
  room = q.room;
  members = λ x. q.members x ∙ place-members v j inside ne x;
  ordered = q.ordered;
}

module _ (tm : ℕ → Timeval) (range : InRange tm) where
  abbrev stop :
      {s : MinHeap} {h e d : ℕ}
      → HasHole s h e d
      → h < s.n
      → IsOrdered tm (place s h e)
      → Placed tm s e d (place s h e)
  stop {s} {h} v inside o = record {
    rest = s;
    hole = h;
    result = refl;
    holed = v;
    inside = inside;
    size = refl;
    room = refl;
    members = λ x. refl;
    ordered = o;
  }

  shift_up_loop-Placed :
      (fuel : ℕ) (s : MinHeap) (h e : ℕ) {d : ℕ}
      → h ≤ fuel
      → h < s.n
      → HasHole s h e d
      → CanRise tm s h e
      → Placed tm s e d (shift_up_loop tm fuel s h e)
  unfolding shift_up_loop
  shift_up_loop-Placed zero s h e f inside v o =
      stop v inside (risen-IsOrdered tm range o (λ pos. absurd (omega arith)))
  shift_up_loop-Placed (suc fuel) s h e f inside v o =
      elim (Bool-cases (ltb 0 h && elem_greater tm (s.p (parent h)) e)) [
        | inl up ↦
            let cmp = elem_greater-key tm range (s.p (parent h)) e in
            let pos : 0 < h = ground arith in
            let lt : key tm e < key tm (s.p (parent h)) = ground (arith, cmp) in
            let ne : parent h ≢ h = omega arith in
            rw up (
              Placed-place v (parent h) (omega arith) ne (
                shift_up_loop-Placed fuel (place s h (s.p (parent h))) (parent h) e (omega arith)
                  (unfold place in omega arith) (place-HasHole v (parent h) (omega arith) ne inside)
                  (place-CanRise tm range o pos inside lt)))
        | inr done ↦
            let cmp = elem_greater-key tm range (s.p (parent h)) e in
            rw done (stop v inside (risen-IsOrdered tm range o (λ pos. ground (arith, cmp))))
      ]

  shift_down_loop-Placed :
      (fuel : ℕ) (s : MinHeap) (h e : ℕ) {d : ℕ}
      → s.n ≤ h + fuel
      → h < s.n
      → HasHole s h e d
      → CanSink tm s h e
      → Placed tm s e d (shift_down_loop tm fuel s h e)
  unfolding shift_down_loop
  shift_down_loop-Placed zero s h e f inside v o = absurd (omega arith)
  shift_down_loop-Placed (suc fuel) s h e f inside v o =
      let m = min_child tm s h in
      let cmp = elem_greater-key tm range e (s.p m) in
      elim (Bool-cases (leb (2 * (h + 1)) s.n && elem_greater tm e (s.p m))) [
        | inl down ↦
            let k = min_child-IsMinChild tm range s h (ground arith) in
            let lt : key tm (s.p m) < key tm e = ground (arith, cmp) in
            let ne : m ≢ h = omega arith in
            rw down (
              Placed-place v m k.inside ne (
                shift_down_loop-Placed fuel (place s h (s.p m)) m e (unfold place in omega arith)
                  (unfold place in k.inside) (place-HasHole v m k.inside ne inside)
                  (place-CanSink tm range o k inside lt)))
        | inr done ↦ rw done (
            stop v inside (
              sunk-IsOrdered tm range o λ c p q r. elim (Bool-cases (leb (2 * (h + 1)) s.n)) [
                | inl room ↦
                    let k = min_child-IsMinChild tm range s h (ground arith) in
                    ground (arith, cmp, k.least c)
                | inr none_left ↦ absurd (ground arith)
              ]))
      ]

  pub shift_up-Placed :
      (s : MinHeap) (h e : ℕ) {d : ℕ}
      → h < s.n
      → HasHole s h e d
      → CanRise tm s h e
      → Placed tm s e d (shift_up tm s h e)
  unfolding shift_up
  shift_up-Placed s h e inside v o = shift_up_loop-Placed h s h e (omega arith) inside v o

  pub shift_down-Placed :
      (s : MinHeap) (h e : ℕ) {d : ℕ}
      → h < s.n
      → HasHole s h e d
      → CanSink tm s h e
      → Placed tm s e d (shift_down tm s h e)
  unfolding shift_down
  shift_down-Placed s h e inside v o =
      shift_down_loop-Placed (s.n - h) s h e (omega arith) inside v o

  pub shift_up_unconditional-Placed :
      (s : MinHeap) (h e : ℕ) {d : ℕ}
      → 0 < h
      → h < s.n
      → HasHole s h e d
      → CanRise tm s h e
      → key tm e < key tm (s.p (parent h))
      → Placed tm s e d (shift_up_unconditional tm s h e)
  unfolding shift_up_unconditional
  shift_up_unconditional-Placed s h e pos inside v o lt =
      let ne : parent h ≢ h = omega arith in
      Placed-place v (parent h) (omega arith) ne (
        shift_up_loop-Placed (parent h) (place s h (s.p (parent h))) (parent h) e (omega arith)
          (unfold place in omega arith) (place-HasHole v (parent h) (omega arith) ne inside)
          (place-CanRise tm range o pos inside lt))
