-- ===== src/Buffer/Append.antt =====
-- What evbuffer_add does to one chain: bytes go behind those of the last chain with data.
use libevent.Common.{
  ℕ, suc, ◌+◌, ◌^◌, ◌≤◌, ◌<◌, ◌≡◌, refl, ap, ◌∙◌, ◌++◌, true, some, List, [], arith, length,
  length-append, drop, set, get_elem?,
}
use libevent.Buffer.Defs.Chain.{Chain, content, chain_align, room, should_realign}
use libevent.Buffer.Defs.State.{Evbuffer}
use libevent.Buffer.Defs.Add.{append_at, next_size}
use libevent.Buffer.Chains.{
  IsChain, AllChains-set, content-set, drop-set, length-set, IsNew, room_lem,
}
use libevent.Buffer.Invariant.{IsBuffer, bytes_of, IsBuffer-same, SameBytes, grown-IsBuffer}

-- A buffer with `added` behind the bytes of another.
pub record Longer (b : Evbuffer) (added : List ℕ) (out : Evbuffer) : Type 0 where
  pub valid : IsBuffer out
  pub same : bytes_of out ≡ bytes_of b ++ added

pub Longer-same :
    {b c out : Evbuffer} {added : List ℕ} → SameBytes b c → Longer out added b → Longer out added c
Longer-same {b} s l = record {
  valid = IsBuffer-same s l.valid;
  same = ap content s.chains ∙ l.same;
}

-- The last chain with data gets more.
pub append_at-Longer :
    (b : Evbuffer) (i : ℕ) (was c : Chain) (added : List ℕ)
    → IsBuffer b
    → b.last_with_data ≡ i
    → get_elem? b.chains i ≡ some was
    → c.bytes ≡ was.bytes
    → IsChain (record c { bytes = c.bytes ++ added })
    → b.total_len + length added < 2 ^ 64
    → Longer b added (append_at b i c added)
unfolding append_at
append_at-Longer b i was c added v last at bytes w h =
    let d : Chain = record c { bytes = c.bytes ++ added } in
    let tail : content (drop (suc i) b.chains) ≡ [] = rw (← last) v.settled in
    let same : content (set b.chains i d) ≡ bytes_of b ++ added =
      content-set b.chains i was d added at tail (ap (λ xs. xs ++ added) bytes) in
    let more = ap (length {A = ℕ}) same ∙ length-append (bytes_of b) added in
    record {
      valid =
          grown-IsBuffer b (append_at b i c added) added v h refl more
            (omega (arith, length-set b.chains i d, v.placed))
            (rw (last, drop-set b.chains i d) tail) (AllChains-set b.chains i d v.sound w) v.fine;
      same = same;
    }

-- A chain with more behind its bytes, where there is room.
pub filled-IsChain :
    (c : Chain) (added : List ℕ)
    → IsChain c
    → length added ≤ room c
    → IsChain (record c { bytes = c.bytes ++ added })
filled-IsChain c added w h = record {
  inside = omega (arith, room_lem c w, length-append c.bytes added, h);
  small = w.small;
  writable = w.writable;
}

-- A chain whose bytes have moved to the start of its memory.
pub aligned-IsChain :
    (c : Chain) (added : List ℕ)
    → IsChain c
    → should_realign c (length added) ≡ true
    → IsChain (record (chain_align c) { bytes = c.bytes ++ added })
unfolding chain_align should_realign
aligned-IsChain c added w h = record {
  inside = ground (arith, w.inside, w.small, length-append c.bytes added);
  small = w.small;
  writable = w.writable;
}

pub new-IsChain :
    (c : Chain) (size : ℕ) (bytes : List ℕ)
    → IsNew size c
    → length bytes ≤ size
    → IsChain (record c { bytes = bytes })
new-IsChain c size bytes n h = record {
  inside = omega (arith, n.start, n.fits);
  small = omega (arith, n.bound);
  writable = λ _. n.bound;
}

pub next_size_fits : (c : Chain) (n : ℕ) → n ≤ next_size c n
unfolding next_size
next_size_fits c n = ground arith
