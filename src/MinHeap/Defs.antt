-- ===== src/MinHeap/Defs.antt =====
-- struct min_heap and its operations (minheap-internal.h).
-- An event is a number; `ev_timeout` gives its time. The array `p` is a function from its indices,
-- of which `a` are allocated and `n` are in use. `min_heap_idx` is the field
-- ev_timeout_pos.min_heap_idx of every event, with `none` for the value -1.
use libevent.Common.{
  ℕ, zero, suc, ◌+◌, ◌-◌, ◌*◌, ◌/◌, Bool, true, false, ◌||◌, ◌&&◌, Option, none, some, ◌==◌, ltb,
  leb, if◌then◌else◌, update,
}
use libevent.Timeval.{Timeval, timercmp_gt}

pub record MinHeap : Type 0 where
  pub p : ℕ → ℕ
  pub n : ℕ
  pub a : ℕ
  pub min_heap_idx : ℕ → Option ℕ

-- min_heap_ctor_, with the events as they stand.
abbrev pub ctor : (ℕ → Option ℕ) → MinHeap
ctor idx = record { p = λ _. 0; n = 0; a = 0; min_heap_idx = idx }

-- min_heap_elem_init_
unfoldable pub elem_init : MinHeap → ℕ → MinHeap
elem_init s e = record s { min_heap_idx = update s.min_heap_idx e none }

abbrev pub parent : ℕ → ℕ
parent i = (i - 1) / 2

-- (s->p[i] = e)->ev_timeout_pos.min_heap_idx = i
unfoldable pub place : MinHeap → ℕ → ℕ → MinHeap
place s i e = record s { p = update s.p i e; min_heap_idx = update s.min_heap_idx e (some i) }

unfoldable pub elt_is_top : MinHeap → ℕ → Bool
elt_is_top s e = elim (s.min_heap_idx e) [ none ↦ false | some i ↦ i == 0 ]

unfoldable pub is_empty : MinHeap → Bool
is_empty s = s.n == 0

unfoldable pub top : MinHeap → Option ℕ
top s = if s.n == 0 then none else some (s.p 0)

-- min_heap_reserve_, returning whether it succeeds. `realloc_ok` says of a number of entries whether
-- mm_realloc gives that many; it keeps the old ones.
unfoldable pub reserve : (ℕ → Bool) → MinHeap → ℕ → MinHeap × Bool
reserve realloc_ok s n =
    if ltb s.a n
    then (let doubled = if s.a == 0 then 8 else s.a * 2 in
        let a = if ltb doubled n then n else doubled in
        if realloc_ok a then (record s { a = a }, true) else (s, false))
    else (s, true)

module _ (ev_timeout : ℕ → Timeval) where
  -- min_heap_elem_greater
  abbrev pub elem_greater : ℕ → ℕ → Bool
  elem_greater a b = timercmp_gt (ev_timeout a) (ev_timeout b)

  -- The loop of min_heap_shift_up_ and the write behind it. The hole falls in each round, so as much
  -- fuel as the hole's index is enough, and with none left the hole is the root.
  unfoldable pub shift_up_loop : ℕ → MinHeap → ℕ → ℕ → MinHeap
  shift_up_loop zero s hole e = place s hole e
  shift_up_loop (suc fuel) s hole e =
      let done = place s hole e in
      let more = shift_up_loop fuel (place s hole (s.p (parent hole))) (parent hole) e in
      if ltb 0 hole && elem_greater (s.p (parent hole)) e then more else done

  unfoldable pub shift_up : MinHeap → ℕ → ℕ → MinHeap
  shift_up s hole e = shift_up_loop hole s hole e

  -- The do-while loop makes its first round without a test; from then on it is the loop above.
  unfoldable pub shift_up_unconditional : MinHeap → ℕ → ℕ → MinHeap
  shift_up_unconditional s hole e =
      shift_up_loop (parent hole) (place s hole (s.p (parent hole))) (parent hole) e

  -- min_child -= min_child == s->n || greater(p[min_child], p[min_child - 1])
  unfoldable pub min_child : MinHeap → ℕ → ℕ
  min_child s hole =
      let c = 2 * (hole + 1) in if c == s.n || elem_greater (s.p c) (s.p (c - 1)) then c - 1 else c

  -- The hole rises in each round and stays below n, so n - hole is enough fuel.
  unfoldable pub shift_down_loop : ℕ → MinHeap → ℕ → ℕ → MinHeap
  shift_down_loop zero s hole e = place s hole e
  shift_down_loop (suc fuel) s hole e =
      let done = place s hole e in
      let c = min_child s hole in
      let more = shift_down_loop fuel (place s hole (s.p c)) c e in
      if leb (2 * (hole + 1)) s.n && elem_greater e (s.p c) then more else done

  unfoldable pub shift_down : MinHeap → ℕ → ℕ → MinHeap
  shift_down s hole e = shift_down_loop (s.n - hole) s hole e

  -- min_heap_push_: the heap and whether it succeeded.
  unfoldable pub push : (ℕ → Bool) → MinHeap → ℕ → MinHeap × Bool
  push realloc_ok s e =
      let (s', ok) = reserve realloc_ok s (s.n + 1) in
      if ok then (shift_up (record s' { n = s'.n + 1 }) s'.n e, true) else (s', false)

  unfoldable pub pop : MinHeap → MinHeap × Option ℕ
  pop s =
      if s.n == 0
      then (s, none)
      else (let e = s.p 0 in
          (elem_init (shift_down (record s { n = s.n - 1 }) 0 (s.p (s.n - 1))) e, some e))

  -- The choice that erase and adjust share: `e` goes to the hole and from there up or down.
  unfoldable pub refill : MinHeap → ℕ → ℕ → MinHeap
  refill s hole e =
      if ltb 0 hole && elem_greater (s.p (parent hole)) e
      then shift_up_unconditional s hole e
      else shift_down s hole e

  -- min_heap_erase_
  unfoldable pub erase : MinHeap → ℕ → MinHeap × Bool
  erase s e = elim (s.min_heap_idx e) [
    | none ↦ (s, false)
    | some i ↦ (elem_init (refill (record s { n = s.n - 1 }) i (s.p (s.n - 1))) e, true)
  ]

  -- min_heap_adjust_
  unfoldable pub adjust : (ℕ → Bool) → MinHeap → ℕ → MinHeap × Bool
  adjust realloc_ok s e = elim (s.min_heap_idx e) [
    | none ↦ push realloc_ok s e
    | some i ↦ (refill s i e, true)
  ]
