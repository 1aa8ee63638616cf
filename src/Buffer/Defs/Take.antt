-- ===== src/Buffer/Defs/Take.antt =====
-- The functions of buffer.c that read and remove bytes: evbuffer_drain, evbuffer_copyout_from,
-- evbuffer_remove, and evbuffer_pullup, which moves bytes into the first chain.
use libevent.Common.{
  ℕ, ◌+◌, ◌-◌, ◌%◌, ◌^◌, ◌++◌, ◌&&◌, ◌||◌, Bool, true, false, Option, none, some, List, [], ◌∷◌,
  ◌==◌, ltb, leb, if◌then◌else◌, take, drop,
}
use libevent.Buffer.Defs.Chain.{Chain, Env, off, chain_new, plus_size, minus_size}
use libevent.Buffer.Defs.State.{Evbuffer, expect, invoke_callbacks}

-- The loop of evbuffer_drain: the chains that stay, the bytes still to go from the first of them,
-- and the index of last_with_data.
pub record Drained : Type 0 where
  pub left : List Chain
  pub remaining : ℕ
  pub last : ℕ

unfoldable pub drain_chains : List Chain → ℕ → ℕ → Drained
drain_chains [] remaining last = record { left = []; remaining = remaining; last = last }
drain_chains (c ∷ cs) remaining last =
    let rest = drain_chains cs (remaining - off c) (last - 1) in
    if leb (off c) remaining
    then rest
    else record { left = c ∷ cs; remaining = remaining; last = last }

-- A chain without its first bytes.
unfoldable pub without_front : Chain → ℕ → Chain
without_front chain n = record chain { misalign = chain.misalign + n; bytes = drop n chain.bytes }

-- What stays of evbuffer_drain when not all bytes go; to run off the chains is a fault.
unfoldable pub drain_some : Evbuffer → ℕ → Evbuffer
drain_some buf len =
    let d = drain_chains buf.chains len buf.last_with_data in
    elim d.left [
      | [] ↦ record buf { fine = false }
      | c ∷ cs ↦ record buf {
        chains = without_front c d.remaining ∷ cs;
        last_with_data = d.last;
        total_len = minus_size buf.total_len len;
        n_del_for_cb = plus_size buf.n_del_for_cb len;
        fine = buf.fine && ltb d.remaining (off c);
      }
    ]

-- The same where all bytes go.
unfoldable pub drained_all : Evbuffer → Evbuffer
drained_all buf = record buf {
  chains = [];
  last_with_data = 0;
  total_len = 0;
  n_del_for_cb = plus_size buf.n_del_for_cb buf.total_len;
}

-- evbuffer_drain
unfoldable pub evbuffer_drain : Evbuffer → ℕ → Evbuffer × Bool
evbuffer_drain buf len =
    if buf.total_len == 0
    then (buf, true)
    else if buf.freeze_start
    then (buf, false)
    else if leb buf.total_len len
    then (invoke_callbacks (drained_all buf), true)
    else (invoke_callbacks (drain_some buf len), true)

-- struct evbuffer_ptr (event2/buffer.h): a position, the index of its chain and the place there.
pub record EvbufferPtr : Type 0 where
  pub pos : ℕ
  pub chain : ℕ
  pub pos_in_chain : ℕ

-- The loop of evbuffer_copyout_from: whether its assertions hold, and what it copies.
unfoldable pub copy_chains : List Chain → ℕ → ℕ → Bool × List ℕ
copy_chains [] pos_in_chain datlen = (datlen == 0, [])
copy_chains (c ∷ cs) pos_in_chain datlen =
    let copylen = minus_size (off c) pos_in_chain in
    let (ok, rest) = copy_chains cs 0 (datlen - copylen) in
    if datlen == 0
    then (true, [])
    else if leb copylen datlen
    then (ok, take copylen (drop pos_in_chain c.bytes) ++ rest)
    else (leb (datlen + pos_in_chain) (off c), take datlen (drop pos_in_chain c.bytes))

-- The results of the functions that return an int keep its 32 bits as they are. From 2^31 on the int is
-- negative, and the bits of 2^32 - 1 are those of -1, the failure, which here is `none`.

-- What evbuffer_copyout_from gives: the buffer, the result where it is not -1, and the bytes.
pub record Copied : Type 0 where
  pub buf : Evbuffer
  pub result : Option ℕ
  pub out : List ℕ

-- evbuffer_copyout_from, with the number of bytes to copy and where to begin.
unfoldable pub copyout_at : Evbuffer → ℕ → ℕ → ℕ → Copied
copyout_at buf chain pos_in_chain datlen =
    let (ok, out) = copy_chains (drop chain buf.chains) pos_in_chain datlen in
    if datlen == 0
    then record { buf = buf; result = some 0; out = [] }
    else if buf.freeze_start
    then record { buf = buf; result = none; out = [] }
    else record { buf = expect ok buf; result = some datlen; out = out }

-- evbuffer_copyout_from; a position is at most EV_SSIZE_MAX.
unfoldable pub copyout_from : Evbuffer → Option EvbufferPtr → ℕ → Copied
copyout_from buf none datlen =
    copyout_at buf 0 0 (if ltb buf.total_len datlen then buf.total_len else datlen)
copyout_from buf (some p) datlen =
    if ltb (2 ^ 63 - 1 - p.pos) datlen
    then record { buf = buf; result = none; out = [] }
    else copyout_at buf p.chain p.pos_in_chain
        (if ltb buf.total_len (datlen + p.pos) then minus_size buf.total_len p.pos else datlen)

-- evbuffer_copyout
unfoldable pub evbuffer_copyout : Evbuffer → ℕ → Copied
evbuffer_copyout buf datlen = copyout_from buf none datlen

-- evbuffer_remove; the number of bytes is cut to the 32 bits of an int.
unfoldable pub evbuffer_remove : Evbuffer → ℕ → Copied
evbuffer_remove buf datlen =
    let c = copyout_from buf none datlen in
    elim c.result [
      | none ↦ c
      | some n ↦
          let (drained, ok) = evbuffer_drain c.buf n in
          if n == 0 then c else record {
            buf = drained;
            result = if ok then some (n % 2 ^ 32) else none;
            out = c.out;
          }
    ]

-- What evbuffer_pullup takes from the chains: the bytes, the chains that stay, and how many go.
pub record Gathered : Type 0 where
  pub taken : List ℕ
  pub left : List Chain
  pub removed : ℕ

unfoldable pub gather : List Chain → ℕ → Gathered
gather [] size = record { taken = []; left = []; removed = 0 }
gather (c ∷ cs) size =
    let rest = gather cs (size - off c) in
    if leb (off c) size
    then record { taken = c.bytes ++ rest.taken; left = rest.left; removed = rest.removed + 1 }
    else record { taken = take size c.bytes; left = without_front c size ∷ cs; removed = 0 }

-- Whether a list of chains begins with data.
unfoldable pub begins : List Chain → Bool
begins [] = false
begins (c ∷ cs) = ltb 0 (off c)

-- The index of last_with_data, where `removed` chains from the index `start` on have gone into
-- the first one, and `left` come behind it.
unfoldable pub pulled_last : ℕ → ℕ → ℕ → List Chain → ℕ
pulled_last last start removed left =
    if last == 0 || ltb last (start + removed)
    then 0
    else if last == start + removed && ltb 0 removed
    then (if begins left then 1 else 0)
    else last + 1 - (start + removed)

-- The end of evbuffer_pullup: `tmp` gets the bytes of the chains from the index `start` on.
unfoldable pub pull_into : Evbuffer → Chain → ℕ → List Chain → ℕ → Evbuffer × Bool
pull_into buf tmp start cs size =
    let g = gather cs size in
    (
      record buf {
        chains = record tmp { bytes = tmp.bytes ++ g.taken } ∷ g.left;
        last_with_data = pulled_last buf.last_with_data start g.removed g.left;
      },
      true,
    )

-- evbuffer_pullup of a number of bytes: whether they now stand in the first chain.
unfoldable pub pullup : Env → Evbuffer → ℕ → List Chain → Evbuffer × Bool
pullup env buf size [] = (buf, false)
pullup env buf size (c ∷ cs) =
    let checked = expect (ltb (minus_size size (off c)) (2 ^ 63)) buf in
    if size == 0 || ltb buf.total_len size
    then (buf, false)
    else if leb size (off c)
    then (buf, true)
    else if leb size (minus_size c.buffer_len c.misalign)
    then pull_into checked c 1 cs (size - off c)
    else elim (chain_new env size) [
      | none ↦ (checked, false)
      | some tmp ↦ pull_into checked tmp 0 (c ∷ cs) size
    ]

-- evbuffer_pullup, where a negative number asks for all bytes.
unfoldable pub evbuffer_pullup : Env → Evbuffer → Option ℕ → Evbuffer × Bool
evbuffer_pullup env buf none = pullup env buf buf.total_len buf.chains
evbuffer_pullup env buf (some size) = pullup env buf size buf.chains
