-- ===== src/Buffer/Defs/Chain.antt =====
-- struct evbuffer_chain (evbuffer-internal.h) and the helpers of buffer.c on one chain and on the
-- list that the `next` pointers make. A chain is kept with the bytes that stand between `misalign`
-- and `misalign + off`; `off` is their number. Sizes are those of a 64-bit system.
use libevent.Common.{
  ℕ, zero, suc, ◌+◌, ◌-◌, ◌*◌, ◌/◌, ◌%◌, ◌^◌, ◌++◌, ◌&&◌, Bool, true, false, Option, none, some,
  List, [], ◌∷◌, ◌==◌, ltb, leb, if◌then◌else◌, length,
}

pub record Chain : Type 0 where
  pub buffer_len : ℕ
  pub misalign : ℕ
  pub bytes : List ℕ
  -- EVBUFFER_IMMUTABLE
  pub immutable : Bool

-- What the functions take from the system: whether malloc has memory of a size.
pub record Env : Type 0 where
  pub malloc_ok : ℕ → Bool

abbrev pub off : Chain → ℕ
off chain = length chain.bytes

-- EVBUFFER_CHAIN_MAX
abbrev pub chain_max : ℕ
chain_max = 2 ^ 63 - 1

-- EVBUFFER_CHAIN_SIZE
abbrev pub chain_size : ℕ
chain_size = 48

-- The loop of evbuffer_chain_new, on fuel.
unfoldable pub doubled : ℕ → ℕ → ℕ → ℕ
doubled zero to_alloc size = to_alloc
doubled (suc fuel) to_alloc size =
    let rest = doubled fuel (to_alloc * 2) size in if ltb to_alloc size then rest else to_alloc

-- The memory that evbuffer_chain_new asks for; `size` has room for the header.
unfoldable pub alloc_size : ℕ → ℕ
alloc_size size = if ltb size (chain_max / 2) then doubled size 1024 size else size

-- evbuffer_chain_new
unfoldable pub chain_new : Env → ℕ → Option Chain
chain_new env size =
    if ltb (chain_max - chain_size) size
    then none
    else if env.malloc_ok (alloc_size (size + chain_size))
    then some (record {
      buffer_len = alloc_size (size + chain_size) - chain_size;
      misalign = 0;
      bytes = [];
      immutable = false;
    })
    else none

-- a - b, as a size_t.
abbrev pub minus_size : ℕ → ℕ → ℕ
minus_size a b = (a + 2 ^ 64 - b) % 2 ^ 64

-- a + b, as a size_t.
abbrev pub plus_size : ℕ → ℕ → ℕ
plus_size a b = (a + b) % 2 ^ 64

-- The room behind the data.
unfoldable pub room : Chain → ℕ
room chain = minus_size (minus_size chain.buffer_len chain.misalign) (off chain)

-- CHAIN_SPACE_LEN
unfoldable pub chain_space_len : Chain → ℕ
chain_space_len chain = if chain.immutable then 0 else room chain

-- evbuffer_chain_should_realign
unfoldable pub should_realign : Chain → ℕ → Bool
should_realign chain datlen =
    leb datlen (minus_size chain.buffer_len (off chain))
    && ltb (off chain) (chain.buffer_len / 2)
    && leb (off chain) 2048

-- evbuffer_chain_align
unfoldable pub chain_align : Chain → Chain
chain_align chain = record chain { misalign = 0 }

-- The bytes of a list of chains.
unfoldable pub content : List Chain → List ℕ
content [] = []
content (c ∷ cs) = c.bytes ++ content cs

-- evbuffer_chains_all_empty
unfoldable pub chains_all_empty : List Chain → Bool
chains_all_empty [] = true
chains_all_empty (c ∷ cs) = off c == 0 && chains_all_empty cs

-- Up to the first chain that is empty.
unfoldable pub up_to_empty : List Chain → List Chain
up_to_empty [] = []
up_to_empty (c ∷ cs) = if off c == 0 then [] else c ∷ up_to_empty cs

-- From the first chain that is empty.
unfoldable pub from_empty : List Chain → List Chain
from_empty [] = []
from_empty (c ∷ cs) = if off c == 0 then c ∷ cs else from_empty cs

-- The chains that evbuffer_free_trailing_empty_chains leaves, where `at` is the index of the chain
-- that last_with_datap points to.
unfoldable pub trimmed : ℕ → List Chain → List Chain
trimmed zero cs = up_to_empty cs
trimmed (suc at) [] = []
trimmed (suc at) (c ∷ cs) = c ∷ trimmed at cs
