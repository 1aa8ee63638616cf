-- ===== src/MinHeap/Index.antt =====
-- The indices that events keep of their place in the heap, while a hole travels through the array.
use libevent.Common.{ℕ, ◌<◌, ◌≡◌, ◌≢◌, some, arith, is_some}
use libevent.MinHeap.Defs.{MinHeap, place, elem_init}

-- The entries in use know their index, and every index that an event keeps is right.
pub record IsIndexed (s : MinHeap) : Type 0 where
  pub at : (i : ℕ) → i < s.n → s.min_heap_idx (s.p i) ≡ some i
  pub back : (x i : ℕ) → s.min_heap_idx x ≡ some i → (i < s.n) × (s.p i ≡ x)

-- The same of every entry but `h`, the hole, where `e` will stand. The index that `e` keeps does not
-- count, nor that of `d`, the event that is leaving (or again `e`).
pub record HasHole (s : MinHeap) (h e d : ℕ) : Type 0 where
  pub at : (i : ℕ) → i < s.n → i ≢ h → s.min_heap_idx (s.p i) ≡ some i
  pub other : (i : ℕ) → i < s.n → i ≢ h → (s.p i ≢ e) × (s.p i ≢ d)
  pub back :
      (x i : ℕ) → x ≢ e → x ≢ d → s.min_heap_idx x ≡ some i → (i < s.n) × (i ≢ h) × (s.p i ≡ x)

module _ {s : MinHeap} {h e d : ℕ} (v : HasHole s h e d) (j : ℕ) (inside : j < s.n)
    (ne : j ≢ h) where
  -- The entry at `j` goes to the hole, and leaves its place as the hole.
  pub place-HasHole : h < s.n → HasHole (place s h (s.p j)) j e d
  unfolding place
  place-HasHole hh = record {
    at = λ i p q. ground (arith, v.at i, v.at j inside ne);
    other = λ i p q. ground (arith, v.other i, v.other j inside ne);
    back = λ x i p q r. ground (arith, v.back x i p q, v.at j inside ne);
  }

  pub place-members :
      (x : ℕ) → is_some ((place s h (s.p j)).min_heap_idx x) ≡ is_some (s.min_heap_idx x)
  unfolding place
  place-members x = ground (arith, v.at j inside ne)

module _ {s : MinHeap} {h e : ℕ} (inside : h < s.n) where
  -- Once `e` stands in the hole, every index is right.
  pub place-IsIndexed : HasHole s h e e → IsIndexed (place s h e)
  unfolding place
  place-IsIndexed v = record {
    at = λ i p. ground (arith, v.at i p, v.other i p);
    back = λ x i p. ground (arith, v.back x i);
  }

  pub elem_init-IsIndexed :
      {d : ℕ} → d ≢ e → HasHole s h e d → IsIndexed (elem_init (place s h e) d)
  unfolding place elem_init
  elem_init-IsIndexed {d} ne v = record {
    at = λ i p. ground (arith, v.at i p, v.other i p);
    back = λ x i p. ground (arith, v.back x i);
  }
