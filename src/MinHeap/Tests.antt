-- ===== src/MinHeap/Tests.antt =====
-- The theorems on the heap at concrete ones.
use libevent.Common.{ℕ, ◌≡◌, true, false, ◌||◌, refl, some, none, ◌==◌, if◌then◌else◌, arith}
use libevent.Timeval.{Timeval, timercmp_lt}
use libevent.MinHeap.Defs.{
  MinHeap, top, push, pop, erase, adjust, reserve, elem_greater, elt_is_top,
}
use libevent.MinHeap.Order.{InRange}
use libevent.MinHeap.Refill.{IsHeap, has}
use libevent.MinHeap.Push.{push_adds, push-reserve, adjust-IsHeap}
use libevent.MinHeap.Remove.{Removed, erase-Removed, top_least, pop-Removed}

-- Event number n is due at second n.
abbrev tm : ℕ → Timeval
tm e = record { tv_sec = e; tv_usec = 0 }

tm-InRange : InRange tm
tm-InRange e = omega arith

-- A heap of the events 4 and 9.
abbrev two : MinHeap
two = record {
  p = λ i. if i == 0 then 4 else 9;
  n = 2;
  a = 8;
  min_heap_idx = λ x. if x == 4 then some 0 else if x == 9 then some 1 else none;
}

two-IsHeap : IsHeap tm two
unfolding timercmp_lt
two-IsHeap = record {
  indexed = record { at = λ i h. ground arith; back = λ x i h. ground arith };
  ordered = λ c h k. ground arith;
  room = omega arith;
}

push_adds_example :
    let (s', ok) = push tm (λ _. true) two 2 in
    (ok ≡ true → IsHeap tm s' × (s'.n ≡ 3) × ((x : ℕ) → has s' x ≡ (2 == x || has two x)))
    × (ok ≡ false → s' ≡ two)
push_adds_example = push_adds tm (λ _. true) two 2 tm-InRange two-IsHeap refl

two-reserve : (reserve (λ _. true) two 3).1 ≡ true
unfolding reserve
two-reserve = refl

push-reserve_example : (push tm (λ _. false) (reserve (λ _. true) two 3).0 2).1 ≡ true
push-reserve_example = push-reserve tm (λ _. true) (λ _. false) two 2 two-reserve

-- The time of event 9 changes to second 1.
abbrev sooner : ℕ → Timeval
sooner e = if e == 9 then tm 1 else tm e

adjust-IsHeap_example :
    let (s', ok) = adjust sooner (λ _. true) two 9 in
    (ok ≡ true) × IsHeap sooner s' × (s'.n ≡ 2) × ((x : ℕ) → has s' x ≡ has two x)
adjust-IsHeap_example =
    adjust-IsHeap tm sooner (λ _. true) two 9 1 tm-InRange (λ e. ground arith)
      (λ x ne. ground arith) two-IsHeap refl

erase-Removed_example :
    let (r, ok) = erase tm two 4 in
    (has two 4 ≡ true → (ok ≡ true) × Removed tm two 4 r)
    × (has two 4 ≡ false → (ok ≡ false) × (r ≡ two))
erase-Removed_example = erase-Removed tm tm-InRange two two-IsHeap 4

top-two : top two ≡ some 4
unfolding top
top-two = refl

top_least_example :
    (has two 4 ≡ true)
    × ((x : ℕ) → has two x ≡ true → elem_greater tm 4 x ≡ false)
    × (elt_is_top two 4 ≡ true)
top_least_example = top_least tm tm-InRange two two-IsHeap 4 top-two

pop-Removed_example :
    ((two.n ≡ 0) → pop tm two ≡ (two, none))
    × ((e : ℕ) → top two ≡ some e → ((pop tm two).1 ≡ some e) × Removed tm two e (pop tm two).0)
pop-Removed_example = pop-Removed tm tm-InRange two two-IsHeap
