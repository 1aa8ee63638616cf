-- ===== src/Buffer/Defs/RemoveBuffer.antt =====
-- evbuffer_remove_buffer, which moves the first bytes of one buffer to the end of another: whole
-- chains where it can. `same` says whether the two are one buffer, which then is as before.
use libevent.Common.{
  ℕ, ◌+◌, ◌-◌, ◌%◌, ◌^◌, ◌++◌, ◌&&◌, ◌||◌, not, Bool, false, Option, none, some, List, [], ◌∷◌,
  ◌==◌, ltb, leb, if◌then◌else◌, length, take, drop,
}
use libevent.Buffer.Defs.Chain.{
  Chain, Env, off, plus_size, minus_size, chains_all_empty, from_empty, trimmed,
}
use libevent.Buffer.Defs.State.{Evbuffer, advance_last_with_data, invoke_callbacks}
use libevent.Buffer.Defs.Add.{evbuffer_add}
use libevent.Buffer.Defs.Take.{without_front}
use libevent.Buffer.Defs.Move.{evbuffer_add_buffer}

-- The loop of evbuffer_remove_buffer: the chains that it passes and those that stay, and the bytes
-- in the first ones and those still to go.
pub record Passed : Type 0 where
  pub gone : List Chain
  pub left : List Chain
  pub nread : ℕ
  pub datlen : ℕ

unfoldable pub pass_chains : List Chain → ℕ → Passed
pass_chains [] datlen = record { gone = []; left = []; nread = 0; datlen = datlen }
pass_chains (c ∷ cs) datlen =
    let rest = pass_chains cs (datlen - off c) in
    if leb (off c) datlen
    then record rest { gone = c ∷ rest.gone; nread = off c + rest.nread }
    else record { gone = []; left = c ∷ cs; nread = 0; datlen = datlen }

-- The chains that have been passed move to the end of `dst`, if there is data in them.
unfoldable pub take_chains : Evbuffer → Passed → Evbuffer
unfolding advance_last_with_data
take_chains dst p =
    let kept = trimmed dst.last_with_data dst.chains in
    let longer = advance_last_with_data (record dst {
      chains = kept ++ p.gone;
      fine = dst.fine && chains_all_empty (from_empty (drop dst.last_with_data dst.chains));
    }) in
    if p.nread == 0 then dst else record longer {
      total_len = plus_size longer.total_len p.nread;
      n_add_for_cb = plus_size longer.n_add_for_cb p.nread;
    }

-- What stays in `src`: the first chain that has not been passed loses its first bytes. The pointer
-- to the last chain with data goes back to the first chain as the one before it is passed, also
-- where the chains that have been passed stay; to run off the chains is a fault.
unfoldable pub leave_chains : Evbuffer → Passed → Evbuffer
leave_chains src p = elim p.left [
  | [] ↦ record src { fine = false }
  | c ∷ cs ↦ record src {
    chains = (if p.nread == 0 then p.gone else []) ++ without_front c p.datlen ∷ cs;
    last_with_data =
        if leb src.last_with_data (length p.gone)
        then 0
        else if p.nread == 0
        then src.last_with_data
        else src.last_with_data - length p.gone;
    total_len = minus_size src.total_len (p.nread + p.datlen);
    n_del_for_cb = plus_size src.n_del_for_cb (p.nread + p.datlen);
    fine = src.fine && not (src.last_with_data == 0 && ltb 0 (length p.gone));
  }
]

-- The bytes that evbuffer_remove_buffer copies.
unfoldable pub copied_bytes : Passed → List ℕ
copied_bytes p = elim p.left [ [] ↦ [] | c ∷ cs ↦ take p.datlen c.bytes ]

-- The two buffers afterwards, and the result, the 32 bits of an int; a failure is `none`, though the
-- int of 2^32 - 1 bytes is -1 as well.
pub record RemovedBuffer : Type 0 where
  pub src : Evbuffer
  pub dst : Evbuffer
  pub result : Option ℕ

-- evbuffer_remove_buffer where not all bytes go.
unfoldable pub remove_some : Env → Evbuffer → Evbuffer → ℕ → RemovedBuffer
remove_some env src dst datlen =
    let p = pass_chains src.chains datlen in
    let longer = (evbuffer_add env (take_chains dst p) (copied_bytes p)).0 in
    let n = p.nread + p.datlen in
    record {
      dst = if n == 0 then longer else invoke_callbacks longer;
      src = if n == 0 then leave_chains src p else invoke_callbacks (leave_chains src p);
      result = some (n % 2 ^ 32);
    }

-- evbuffer_remove_buffer
unfoldable pub evbuffer_remove_buffer : Bool → Env → Evbuffer → Evbuffer → ℕ → RemovedBuffer
evbuffer_remove_buffer same env src dst datlen =
    if datlen == 0 || same
    then record { src = src; dst = dst; result = some 0 }
    else if dst.freeze_end || src.freeze_start
    then record { src = src; dst = dst; result = none }
    else if leb src.total_len datlen
    then (let m = evbuffer_add_buffer false dst src in
        record { src = m.inp; dst = m.out; result = some (src.total_len % 2 ^ 32) })
    else remove_some env src dst datlen
