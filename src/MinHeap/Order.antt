-- ===== src/MinHeap/Order.antt =====
-- The order of the heap, while a hole travels up or down the tree.
use libevent.Common.{ℕ, ◌+◌, ◌-◌, ◌*◌, ◌^◌, ◌<◌, ◌≤◌, ◌≡◌, ◌≢◌, false, arith, ltb, ◌⊎◌}
use libevent.Timeval.{Timeval, rank, timercmp_lt-rank}
use libevent.MinHeap.Defs.{MinHeap, place, parent, elem_greater, min_child}

-- No entry is earlier than its parent.
abbrev pub IsOrdered : (ℕ → Timeval) → MinHeap → Type 0
IsOrdered tm s = (c : ℕ) → 0 < c → c < s.n → elem_greater tm (s.p (parent c)) (s.p c) ≡ false

-- The microseconds of every time lie in the range of the C type.
abbrev pub InRange : (ℕ → Timeval) → Type 0
InRange tm = (e : ℕ) → (tm e).tv_usec < 2 ^ 63

module _ (tm : ℕ → Timeval) where
  abbrev pub key : ℕ → ℕ
  key e = rank (tm e)

  -- All is in order but the hole `h`, which `e` may fill as far as the entries below go.
  pub record CanRise (s : MinHeap) (h e : ℕ) : Type 0 where
    pub edges :
        (c : ℕ) → 0 < c → c < s.n → c ≢ h → parent c ≢ h → key (s.p (parent c)) ≤ key (s.p c)
    pub below : (c : ℕ) → 0 < c → c < s.n → parent c ≡ h → key e ≤ key (s.p c)
    pub bridged :
        (c : ℕ) → 0 < h → 0 < c → c < s.n → parent c ≡ h → key (s.p (parent h)) ≤ key (s.p c)

  -- The same as far as the entry above goes.
  pub record CanSink (s : MinHeap) (h e : ℕ) : Type 0 where
    pub edges :
        (c : ℕ) → 0 < c → c < s.n → c ≢ h → parent c ≢ h → key (s.p (parent c)) ≤ key (s.p c)
    pub above : 0 < h → key (s.p (parent h)) ≤ key e
    pub bridged :
        (c : ℕ) → 0 < h → 0 < c → c < s.n → parent c ≡ h → key (s.p (parent h)) ≤ key (s.p c)

  -- `m` is a child of the hole, and no later than the other one.
  pub record IsMinChild (s : MinHeap) (h m : ℕ) : Type 0 where
    pub inside : m < s.n
    pub child : (m ≡ 2 * h + 1) ⊎ (m ≡ 2 * h + 2)
    pub least : (c : ℕ) → 0 < c → c < s.n → parent c ≡ h → key (s.p m) ≤ key (s.p c)

  module _ (range : InRange tm) where
    pub elem_greater-key : (a b : ℕ) → elem_greater tm a b ≡ ltb (key b) (key a)
    elem_greater-key a b = timercmp_lt-rank (tm b) (tm a) (range b) (range a)

    pub key-IsOrdered :
        (s : MinHeap)
        → ((c : ℕ) → 0 < c → c < s.n → key (s.p (parent c)) ≤ key (s.p c))
        → IsOrdered tm s
    key-IsOrdered s h c p q = ground (arith, h c, elem_greater-key (s.p (parent c)) (s.p c))

    pub IsOrdered-key :
        (s : MinHeap)
        → IsOrdered tm s
        → (c : ℕ) → 0 < c
        → c < s.n
        → key (s.p (parent c)) ≤ key (s.p c)
    IsOrdered-key s h c p q = ground (arith, h c, elem_greater-key (s.p (parent c)) (s.p c))

    pub min_child-IsMinChild :
        (s : MinHeap) (h : ℕ) → 2 * (h + 1) ≤ s.n → IsMinChild s h (min_child tm s h)
    unfolding min_child
    min_child-IsMinChild s h room =
        let c = 2 * (h + 1) in
        let cmp = elem_greater-key (s.p c) (s.p (c - 1)) in
        record {
          inside = ground (arith, cmp);
          child = ground (arith, cmp);
          least = λ k p q r. ground (arith, cmp);
        }

    module _ {s : MinHeap} {h e : ℕ} where
      -- The entry above the hole comes down into it.
      pub place-CanRise :
          CanRise s h e
          → 0 < h
          → h < s.n
          → key e < key (s.p (parent h))
          → CanRise (place s h (s.p (parent h))) (parent h) e
      unfolding place
      place-CanRise v pos inside lt = record {
        edges = λ c p q r t. ground (arith, v.edges c, v.bridged c);
        below = λ c p q r. ground (arith, v.edges c);
        bridged = λ c p q r t. ground (arith, v.edges c, v.edges (parent h));
      }

      pub risen-IsOrdered :
          CanRise s h e → (0 < h → key (s.p (parent h)) ≤ key e) → IsOrdered tm (place s h e)
      unfolding place
      risen-IsOrdered v above =
          key-IsOrdered (place s h e) λ c p q. ground (arith, v.edges c, v.below c, above)

      -- The child comes up into the hole.
      pub place-CanSink :
          {m : ℕ}
          → CanSink s h e
          → IsMinChild s h m
          → h < s.n
          → key (s.p m) < key e
          → CanSink (place s h (s.p m)) m e
      unfolding place
      place-CanSink {m} v k inside lt = record {
        edges = λ c p q r t. ground (arith, v.edges c, v.bridged m, k.least c);
        above = λ p. ground (arith);
        bridged = λ c p q r t. ground (arith, v.edges c);
      }

      pub sunk-IsOrdered :
          CanSink s h e
          → ((c : ℕ) → 0 < c → c < s.n → parent c ≡ h → key e ≤ key (s.p c))
          → IsOrdered tm (place s h e)
      unfolding place
      sunk-IsOrdered v below =
          key-IsOrdered (place s h e) λ c p q. ground (arith, v.edges c, v.above, below c)
