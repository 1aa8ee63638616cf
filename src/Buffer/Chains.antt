-- ===== src/Buffer/Chains.antt =====
-- Lists of chains: the bytes in them, and what may be cut off their end.
use libevent.Common.{
  ℕ, zero, suc, ◌+◌, ◌*◌, ◌^◌, ◌≤◌, ◌<◌, ◌≡◌, refl, ap, ◌++◌, append-nil, append_assoc, true, false,
  some, List, [], ◌∷◌, arith, length, drop, drop_all, set, get_elem?, nil_of_length, append-eq-nil,
  Bool-cases, ◌==◌, inl, inr,
}
use mathlib.Core.Path.{subst}
use native.Mathlib.Decide.{ℕ_discrete}
use libevent.Buffer.Defs.Chain.{
  Chain, Env, off, chain_size, chain_new, alloc_size, doubled, room, chain_space_len, content,
  chains_all_empty, up_to_empty, from_empty, trimmed,
}

-- A chain's bytes stand inside its memory.
pub record IsChain (c : Chain) : Type 0 where
  pub inside : c.misalign + off c ≤ c.buffer_len
  pub small : c.buffer_len < 2 ^ 64
  pub writable : c.immutable ≡ false → c.buffer_len < 2 ^ 63

abbrev pub AllChains : List Chain → Type 0
AllChains [] = Unit
AllChains (c ∷ cs) = IsChain c × AllChains cs

pub room_lem : (c : Chain) → IsChain c → room c + (c.misalign + off c) ≡ c.buffer_len
unfolding room
room_lem c v = omega arith

pub space-room : (c : Chain) → chain_space_len c ≤ room c
unfolding chain_space_len
space-room c = ground arith

-- Doubling reaches the size, and does not go past its double.
doubled_reaches :
    (fuel to_alloc size : ℕ)
    → 0 < to_alloc
    → size ≤ to_alloc + fuel
    → size ≤ doubled fuel to_alloc size
unfolding doubled
doubled_reaches zero to_alloc size p h = omega arith
doubled_reaches (suc fuel) to_alloc size p h =
    ground (arith, doubled_reaches fuel (to_alloc * 2) size (omega arith) (omega arith))

doubled_bound :
    (fuel to_alloc size bound : ℕ)
    → to_alloc < bound
    → size * 2 ≤ bound
    → doubled fuel to_alloc size < bound
unfolding doubled
doubled_bound zero to_alloc size bound p h = p
doubled_bound (suc fuel) to_alloc size bound p h =
    ground
      (arith, λ (q : to_alloc < size). doubled_bound fuel (to_alloc * 2) size bound (omega arith) h)

alloc_size_bounds :
    (size : ℕ) → size < 2 ^ 63 → (size ≤ alloc_size size) × (alloc_size size < 2 ^ 63)
unfolding alloc_size
alloc_size_bounds size h = ground (
  arith,
  doubled_reaches size 1024 size (omega arith) (omega arith),
  doubled_bound size 1024 size (2 ^ 63) (omega arith),
)

-- A new chain is empty, and has room for what it was made for.
pub record IsNew (size : ℕ) (c : Chain) : Type 0 where
  pub empty : c.bytes ≡ []
  pub start : c.misalign ≡ 0
  pub fits : size ≤ c.buffer_len
  pub bound : c.buffer_len < 2 ^ 63
  pub mutable : c.immutable ≡ false

pub chain_new-IsNew :
    (env : Env) (size : ℕ) (c : Chain) → chain_new env size ≡ some c → IsNew size c
unfolding chain_new
chain_new-IsNew env size c h = ground (arith, alloc_size_bounds (size + chain_size))

pub content-append : (xs ys : List Chain) → content (xs ++ ys) ≡ content xs ++ content ys
unfolding content
content-append [] ys = refl
content-append (c ∷ cs) ys = simp (content-append cs ys, append_assoc)

pub AllChains-append : (xs ys : List Chain) → AllChains xs → AllChains ys → AllChains (xs ++ ys)
AllChains-append [] ys v w = w
AllChains-append (c ∷ cs) ys v w = (v.0, AllChains-append cs ys v.1 w)

-- The last chain with data gets more.
pub content-set :
    (cs : List Chain) (i : ℕ) (c d : Chain) (added : List ℕ)
    → get_elem? cs i ≡ some c
    → content (drop (suc i) cs) ≡ []
    → d.bytes ≡ c.bytes ++ added
    → content (set cs i d) ≡ content cs ++ added
unfolding content
content-set [] i c d added at h e = cc
content-set (b ∷ cs) zero c d added at h e =
    let same : b.bytes ≡ c.bytes = cc in simp (h, e, append-nil, same)
content-set (b ∷ cs) (suc i) c d added at h e =
    simp (content-set cs i c d added at h e, append_assoc)

pub drop-set : (cs : List Chain) (i : ℕ) (d : Chain) → drop (suc i) (set cs i d) ≡ drop (suc i) cs
drop-set [] i d = refl
drop-set (b ∷ cs) zero d = refl
drop-set (b ∷ cs) (suc i) d = drop-set cs i d

pub length-set : (cs : List Chain) (i : ℕ) (d : Chain) → length (set cs i d) ≡ length cs
length-set [] i d = refl
length-set (b ∷ cs) zero d = refl
length-set (b ∷ cs) (suc i) d = ap suc (length-set cs i d)

pub AllChains-set :
    (cs : List Chain) (i : ℕ) (d : Chain) → AllChains cs → IsChain d → AllChains (set cs i d)
AllChains-set [] i d v w = v
AllChains-set (b ∷ cs) zero d v w = (w, v.1)
AllChains-set (b ∷ cs) (suc i) d v w = (v.0, AllChains-set cs i d v.1 w)

pub AllChains-at :
    (cs : List Chain) (i : ℕ) (c : Chain) → AllChains cs → get_elem? cs i ≡ some c → IsChain c
AllChains-at [] i c v at = cc
AllChains-at (b ∷ cs) zero c v at = let e : b ≡ c = cc in subst IsChain e v.0
AllChains-at (b ∷ cs) (suc i) c v at = AllChains-at cs i c v.1 at

-- Behind the last chain with data all chains are empty, and only those may go.
content-cons-eq-nil :
    (c : Chain) (cs : List Chain)
    → content (c ∷ cs) ≡ []
    → (c.bytes ≡ []) × (off c ≡ 0) × (content cs ≡ [])
unfolding content
content-cons-eq-nil c cs h =
    let (b, r) = append-eq-nil c.bytes (content cs) h in (b, ap (length {A = ℕ}) b, r)

up_to_empty-nil : (cs : List Chain) → content cs ≡ [] → up_to_empty cs ≡ []
unfolding up_to_empty
up_to_empty-nil [] h = refl
up_to_empty-nil (c ∷ cs) h = ground (arith, content-cons-eq-nil c cs h)

chains_all_empty-nil : (cs : List Chain) → content cs ≡ [] → chains_all_empty cs ≡ true
unfolding chains_all_empty
chains_all_empty-nil [] h = refl
chains_all_empty-nil (c ∷ cs) h =
    ground (arith, content-cons-eq-nil c cs h, chains_all_empty-nil cs)

from_empty-nil : (cs : List Chain) → content cs ≡ [] → from_empty cs ≡ cs
unfolding from_empty
from_empty-nil [] h = refl
from_empty-nil (c ∷ cs) h = ground (arith, content-cons-eq-nil c cs h)

content-up_to_empty :
    (c : Chain) (cs : List Chain)
    → content cs ≡ []
    → (content (up_to_empty (c ∷ cs)) ≡ content (c ∷ cs))
      × (length (up_to_empty (c ∷ cs)) ≤ 1)
      × (chains_all_empty (from_empty (c ∷ cs)) ≡ true)
unfolding content up_to_empty from_empty chains_all_empty
content-up_to_empty c cs h = elim (ℕ_discrete (off c) 0) [
  | yes z ↦ let b = nil_of_length c.bytes z in ground (arith, b, chains_all_empty-nil cs h)
  | no ne ↦ ground (arith, up_to_empty-nil cs h, from_empty-nil cs h, chains_all_empty-nil cs h)
]

AllChains-up_to_empty : (cs : List Chain) → AllChains cs → AllChains (up_to_empty cs)
unfolding up_to_empty
AllChains-up_to_empty [] v = v
AllChains-up_to_empty (c ∷ cs) v = elim (Bool-cases (off c == 0)) [
  | inl e ↦ rw e tt
  | inr e ↦ rw e (v.0, AllChains-up_to_empty cs v.1)
]

-- What evbuffer_free_trailing_empty_chains keeps, of chains whose data ends at index `i`.
pub record Trimmed (i : ℕ) (cs kept : List Chain) : Type 0 where
  pub same : content kept ≡ content cs
  pub longer : i ≤ length kept
  pub shorter : length kept ≤ suc i
  pub settled : content (drop (suc i) kept) ≡ []
  pub only_empty : chains_all_empty (from_empty (drop i cs)) ≡ true

pub trimmed-Trimmed :
    (i : ℕ) (cs : List Chain)
    → i < length cs
    → content (drop (suc i) cs) ≡ []
    → Trimmed i cs (trimmed i cs)
unfolding trimmed content
trimmed-Trimmed i [] p h = absurd (omega arith)
trimmed-Trimmed zero (c ∷ cs) p h =
    let (same, short, only) = content-up_to_empty c cs h in
    record {
      same = same;
      longer = omega arith;
      shorter = short;
      settled = rw (drop_all 1 (up_to_empty (c ∷ cs)) short) refl;
      only_empty = only;
    }
trimmed-Trimmed (suc i) (c ∷ cs) p h =
    let t = trimmed-Trimmed i cs (omega arith) h in
    record {
      same = ap (λ xs. c.bytes ++ xs) t.same;
      longer = omega (arith, t.longer);
      shorter = omega (arith, t.shorter);
      settled = t.settled;
      only_empty = t.only_empty;
    }

pub AllChains-trimmed : (i : ℕ) (cs : List Chain) → AllChains cs → AllChains (trimmed i cs)
unfolding trimmed
AllChains-trimmed zero cs v = AllChains-up_to_empty cs v
AllChains-trimmed (suc i) [] v = v
AllChains-trimmed (suc i) (c ∷ cs) v = (v.0, AllChains-trimmed i cs v.1)
