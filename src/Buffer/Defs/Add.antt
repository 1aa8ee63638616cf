-- ===== src/Buffer/Defs/Add.antt =====
-- The functions of buffer.c that put bytes into a buffer: evbuffer_add and evbuffer_prepend.
use libevent.Common.{
  ℕ, ◌+◌, ◌-◌, ◌*◌, ◌^◌, ◌++◌, ◌&&◌, ◌||◌, not, Bool, true, false, none, some, List, ◌∷◌, ◌==◌, ltb,
  leb, if◌then◌else◌, length, take, drop, get_elem?, set,
}
use libevent.Buffer.Defs.Chain.{
  Chain, Env, off, chain_max, chain_new, plus_size, room, chain_space_len, should_realign,
  chain_align,
}
use libevent.Buffer.Defs.State.{Evbuffer, expect, chain_insert, invoke_callbacks}

-- `added` is appended to the chain at an index, which is now `chain`, and counted.
unfoldable pub append_at : Evbuffer → ℕ → Chain → List ℕ → Evbuffer
append_at buf i chain added = record buf {
  chains = set buf.chains i (record chain { bytes = chain.bytes ++ added });
  total_len = plus_size buf.total_len (length added);
  n_add_for_cb = plus_size buf.n_add_for_cb (length added);
}

-- The size of the next chain that evbuffer_add asks for.
unfoldable pub next_size : Chain → ℕ → ℕ
next_size chain datlen =
    let doubled = if leb chain.buffer_len 2048 then chain.buffer_len * 2 else chain.buffer_len in
    if ltb doubled datlen then datlen else doubled

-- What stays of evbuffer_add once a new chain is there for what the last one cannot hold.
unfoldable pub add_overflow : Evbuffer → ℕ → Chain → Chain → List ℕ → Evbuffer
add_overflow buf i chain tmp added =
    let remain = chain_space_len chain in
    let filled = append_at buf i chain (take remain added) in
    let rest = drop remain added in
    let longer = chain_insert filled (record tmp { bytes = rest }) in
    record longer { n_add_for_cb = plus_size longer.n_add_for_cb (length rest) }

-- evbuffer_add, from the chain on that it adds to first.
unfoldable pub add_to : Env → Evbuffer → ℕ → Chain → List ℕ → Evbuffer × Bool
add_to env buf i chain added =
    let checked = expect (chain.immutable || leb chain.misalign chain_max) buf in
    if not chain.immutable && leb (length added) (room chain)
    then (invoke_callbacks (append_at checked i chain added), true)
    else if not chain.immutable && should_realign chain (length added)
    then (invoke_callbacks (append_at checked i (chain_align chain) added), true)
    else elim (chain_new env (next_size chain (length added))) [
      | none ↦ (checked, false)
      | some tmp ↦ (invoke_callbacks (add_overflow checked i chain tmp added), true)
    ]

-- The index of the chain that evbuffer_add adds to.
unfoldable pub add_index : Evbuffer → ℕ
add_index buf =
    if ltb buf.last_with_data (length buf.chains) then buf.last_with_data else length buf.chains - 1

-- evbuffer_add
unfoldable pub evbuffer_add : Env → Evbuffer → List ℕ → Evbuffer × Bool
evbuffer_add env buf added =
    if buf.freeze_end || ltb (2 ^ 64 - 1 - buf.total_len) (length added)
    then (buf, false)
    else elim (get_elem? buf.chains (add_index buf)) [
      | some chain ↦ add_to env buf (add_index buf) chain added
      | none ↦ elim (chain_new env (length added)) [
        | none ↦ (buf, false)
        | some chain ↦ add_to env (chain_insert buf chain) 0 chain added
      ]
    ]

-- `added` comes before the bytes of the first chain, which is now `chain`, and is counted.
unfoldable pub prepend_first : Evbuffer → Chain → List ℕ → Evbuffer
prepend_first buf chain added = record buf {
  chains =
      set buf.chains 0
        (record chain { bytes = added ++ chain.bytes; misalign = chain.misalign - length added });
  total_len = plus_size buf.total_len (length added);
  n_add_for_cb = plus_size buf.n_add_for_cb (length added);
}

-- A new first chain holds `added` at its end.
unfoldable pub prepend_new : Evbuffer → Chain → List ℕ → Evbuffer
unfolding expect
prepend_new buf tmp added =
    let checked = expect (leb (length added) tmp.buffer_len) buf in
    record checked {
      chains =
          record tmp { bytes = added; misalign = tmp.buffer_len - length added } ∷ checked.chains;
      last_with_data = checked.last_with_data + 1;
      total_len = plus_size checked.total_len (length added);
      n_add_for_cb = plus_size checked.n_add_for_cb (length added);
    }

-- The end of evbuffer_prepend.
unfoldable pub prepend_chain : Env → Evbuffer → List ℕ → Evbuffer × Bool
prepend_chain env buf added = elim (chain_new env (length added)) [
  | none ↦ (buf, false)
  | some tmp ↦ (invoke_callbacks (prepend_new buf tmp added), true)
]

-- The chain that evbuffer_prepend writes in front of: an empty one is empty at its beginning.
unfoldable pub emptied_front : Chain → Chain
emptied_front chain = record chain {
  misalign = if off chain == 0 then chain.buffer_len else chain.misalign;
}

-- evbuffer_prepend, from the first chain on.
unfoldable pub prepend_to : Env → Evbuffer → Chain → List ℕ → Evbuffer × Bool
prepend_to env buf chain added =
    let front = emptied_front chain in
    let checked = expect (leb chain.misalign chain_max) buf in
    let left = length added - front.misalign in
    if chain.immutable
    then prepend_chain env buf added
    else if leb (length added) front.misalign
    then (invoke_callbacks (prepend_first checked front added), true)
    else prepend_chain env (prepend_first checked front (drop left added)) (take left added)

-- evbuffer_prepend
unfoldable pub evbuffer_prepend : Env → Evbuffer → List ℕ → Evbuffer × Bool
evbuffer_prepend env buf added =
    if buf.freeze_start || ltb (2 ^ 64 - 1 - buf.total_len) (length added)
    then (buf, false)
    else elim (get_elem? buf.chains 0) [
      | some chain ↦ prepend_to env buf chain added
      | none ↦ elim (chain_new env (length added)) [
        | none ↦ (buf, false)
        | some chain ↦ prepend_to env (chain_insert buf chain) chain added
      ]
    ]
