-- ===== src/EventBase/Timeouts/Common.antt =====
-- The common timeout lists stay in the order of their times.
use libevent.Common.{
  ℕ, ◌+◌, ◌<◌, ◌≡◌, true, List, [], ◌∷◌, ◌==◌, leb, remove, arith, count, one_if, Bool-cases, inl,
  inr,
}
use libevent.Timeval.{Timeval, rank, timercmp_le, timercmp_lt-rank, timercmp_le-not_lt}
use libevent.MinHeap.Order.{InRange}
use libevent.EventBase.Timeouts.Defs.{Search, visit, search_back, is_same_common_timeout}

-- Each time in the list is no later than those behind it.
abbrev pub NoLater : (ℕ → Timeval) → ℕ → List ℕ → Type 0
NoLater tm x [] = Unit {0}
NoLater tm x (y ∷ l) = (timercmp_le (tm x) (tm y) ≡ true) × NoLater tm x l

abbrev pub InOrder : (ℕ → Timeval) → List ℕ → Type 0
InOrder tm [] = Unit {0}
InOrder tm (x ∷ l) = NoLater tm x l × InOrder tm l

-- Every event of the list has the same common timeout as `ev`.
abbrev pub AllSame : (ℕ → Timeval) → ℕ → List ℕ → Type 0
AllSame tm ev [] = Unit {0}
AllSame tm ev (x ∷ l) = (is_same_common_timeout (tm x) (tm ev) ≡ true) × AllSame tm ev l

module _ (tm : ℕ → Timeval) (range : InRange tm) where
  le_rank : (x y : ℕ) → timercmp_le (tm x) (tm y) ≡ leb (rank (tm x)) (rank (tm y))
  le_rank x y =
      ground (
        arith,
        timercmp_le-not_lt (tm x) (tm y),
        timercmp_lt-rank (tm y) (tm x) (range y) (range x),
      )

  NoLater-trans :
      (x y : ℕ) (l : List ℕ) → timercmp_le (tm x) (tm y) ≡ true → NoLater tm y l → NoLater tm x l
  NoLater-trans x y [] h k = tt
  NoLater-trans x y (z ∷ l) h k =
      (ground (arith, le_rank x y, le_rank y z, le_rank x z, k.0), NoLater-trans x y l h k.1)

  -- What the search has come to over a list: a list in order with the event added, or none of the
  -- list is earlier than the event.
  abbrev pub Searched : ℕ → List ℕ → Search → Type 0
  Searched ev l (Search.found l') =
      InOrder tm l'
      × ((a : ℕ) → count a l' ≡ count a l + one_if ev a)
      × ((x : ℕ) → NoLater tm x l → NoLater tm x l')
  Searched ev l Search.missing = NoLater tm ev l
  Searched ev l Search.failed = ⊥

  visit-Searched :
      (ev x : ℕ) (rest : List ℕ) (r : Search)
      → InOrder tm (x ∷ rest)
      → is_same_common_timeout (tm x) (tm ev) ≡ true
      → Searched ev rest r
      → Searched ev (x ∷ rest) (visit tm ev x rest r)
  unfolding visit
  visit-Searched ev x rest (Search.found l) o s r =
      ((r.2 x o.0, r.0), λ a. omega (arith, r.1 a), λ z h. (h.0, r.2 z h.1))
  visit-Searched ev x rest Search.missing o s r = elim (Bool-cases (timercmp_le (tm x) (tm ev))) [
    | inl le ↦
        rw (s, le)
          (
            ((le, o.0), (r, o.1)),
            λ a. omega arith,
            λ z h. (h.0, (ground (arith, le_rank z x, le_rank x ev, le_rank z ev, h.0), h.1)),
          )
    | inr gt ↦ rw (s, gt) (ground (arith, le_rank x ev, le_rank ev x), r)
  ]
  visit-Searched ev x rest Search.failed o s r = absurd r

  pub search_back-Searched :
      (ev : ℕ) (l : List ℕ) → InOrder tm l → AllSame tm ev l → Searched ev l (search_back tm ev l)
  unfolding search_back
  search_back-Searched ev [] o s = tt
  search_back-Searched ev (x ∷ rest) o s =
      visit-Searched ev x rest (search_back tm ev rest) o s.0 (search_back-Searched ev rest o.1 s.1)

NoLater-remove :
    (tm : ℕ → Timeval) (x e : ℕ) (l : List ℕ) → NoLater tm x l → NoLater tm x (remove e l)
unfolding remove
NoLater-remove tm x e [] h = tt
NoLater-remove tm x e (y ∷ l) h = elim (Bool-cases (e == y)) [
  | inl here ↦ rw here h.1
  | inr later ↦ rw later (h.0, NoLater-remove tm x e l h.1)
]

pub InOrder-remove :
    (tm : ℕ → Timeval) (e : ℕ) (l : List ℕ) → InOrder tm l → InOrder tm (remove e l)
unfolding remove
InOrder-remove tm e [] h = tt
InOrder-remove tm e (y ∷ l) h = elim (Bool-cases (e == y)) [
  | inl here ↦ rw here h.1
  | inr later ↦ rw later (NoLater-remove tm y e l h.0, InOrder-remove tm e l h.1)
]

-- The times of events that are not in a list do not matter to it.
NoLater-agree :
    (tm tm' : ℕ → Timeval) (x : ℕ) (l : List ℕ)
    → tm' x ≡ tm x
    → ((a : ℕ) → 0 < count a l → tm' a ≡ tm a)
    → NoLater tm x l
    → NoLater tm' x l
NoLater-agree tm tm' x [] e h n = tt
NoLater-agree tm tm' x (y ∷ l) e h n =
    (rw (e, h y (ground arith)) n.0, NoLater-agree tm tm' x l e (λ a p. h a (omega arith)) n.1)

pub InOrder-agree :
    (tm tm' : ℕ → Timeval) (l : List ℕ)
    → ((a : ℕ) → 0 < count a l → tm' a ≡ tm a)
    → InOrder tm l
    → InOrder tm' l
InOrder-agree tm tm' [] h o = tt
InOrder-agree tm tm' (y ∷ l) h o = (
  NoLater-agree tm tm' y l (h y (ground arith)) (λ a p. h a (omega arith)) o.0,
  InOrder-agree tm tm' l (λ a p. h a (omega arith)) o.1,
)

-- A list all of whose events have the index and the magic of `ev`.
pub AllSame-count :
    (tm : ℕ → Timeval) (ev : ℕ) (l : List ℕ)
    → ((a : ℕ) → 0 < count a l → is_same_common_timeout (tm a) (tm ev) ≡ true)
    → AllSame tm ev l
AllSame-count tm ev [] h = tt
AllSame-count tm ev (y ∷ l) h =
    (h y (ground arith), AllSame-count tm ev l (λ a p. h a (omega arith)))
