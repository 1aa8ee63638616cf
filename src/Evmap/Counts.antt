-- ===== src/Evmap/Counts.antt =====
-- The counts of an entry against its list of events.
use libevent.Common.{
  remove, ℕ, ◌+◌, ◌≤◌, ◌<◌, ◌≡◌, Bool, true, false, ◌||◌, List, [], ◌∷◌, arith, ◌==◌, if◌then◌else◌,
  some,
}
use libevent.Flags.{What}
use libevent.Evmap.Defs.{EvmapIo, Evmap}

abbrev pub occurs : ℕ → List ℕ → Bool
occurs e [] = false
occurs e (x ∷ xs) = e == x || occurs e xs

module _ (evs : ℕ → What) (f : What → Bool) where
  -- The number of events in a list that wait on a condition.
  abbrev pub count_by : List ℕ → ℕ
  count_by [] = 0
  count_by (x ∷ xs) = (if f (evs x) then 1 else 0) + count_by xs

  pub count_by-remove :
      (e : ℕ) (xs : List ℕ)
      → occurs e xs ≡ true
      → count_by (remove e xs) + (if f (evs e) then 1 else 0) ≡ count_by xs
  unfolding remove
  count_by-remove e [] h = absurd (ground arith)
  count_by-remove e (x ∷ xs) h = ground (arith, count_by-remove e xs)

-- The counts are those of the list, and fit 16 bits.
pub record IsEntry (evs : ℕ → What) (c : EvmapIo) : Type 0 where
  pub reads : c.nread ≡ count_by evs (λ w. w.read) c.events
  pub writes : c.nwrite ≡ count_by evs (λ w. w.write) c.events
  pub closes : c.nclose ≡ count_by evs (λ w. w.closed) c.events
  pub read_bound : c.nread ≤ 0xffff
  pub write_bound : c.nwrite ≤ 0xffff
  pub close_bound : c.nclose ≤ 0xffff

pub record IsEvmap (evs : ℕ → What) (m : Evmap) : Type 0 where
  pub io_inside : (fd : ℕ) (c : EvmapIo) → m.io fd ≡ some c → fd < m.io_nentries
  pub entries : (fd : ℕ) (c : EvmapIo) → m.io fd ≡ some c → IsEntry evs c
  pub sig_inside : (sig : ℕ) (c : List ℕ) → m.sigmap sig ≡ some c → sig < m.sig_nentries
