-- ===== src/Buffer/Defs/Move.antt =====
-- evbuffer_add_buffer and evbuffer_prepend_buffer, which move the chains of one buffer to another.
-- `same` says whether the two are one buffer, which then is as before.
use libevent.Common.{
  ℕ, ◌+◌, ◌++◌, ◌&&◌, ◌||◌, Bool, true, false, [], ◌==◌, if◌then◌else◌, length, drop, get_elem?,
  is_some,
}
use libevent.Buffer.Defs.Chain.{plus_size, chains_all_empty, from_empty, trimmed}
use libevent.Buffer.Defs.State.{Evbuffer, invoke_callbacks}

-- The two buffers afterwards, and whether the call succeeded.
pub record Moved : Type 0 where
  pub out : Evbuffer
  pub inp : Evbuffer
  pub ok : Bool

-- ZERO_CHAIN
unfoldable pub zero_chain : Evbuffer → Evbuffer
zero_chain dst = record dst { chains = []; last_with_data = 0; total_len = 0 }

-- COPY_CHAIN
unfoldable pub copy_chain : Evbuffer → Evbuffer → Evbuffer
copy_chain dst src = record dst {
  chains = src.chains;
  last_with_data = src.last_with_data;
  total_len = src.total_len;
}

-- APPEND_CHAIN
unfoldable pub append_chain : Evbuffer → Evbuffer → Evbuffer
append_chain dst src =
    let kept = trimmed dst.last_with_data dst.chains in
    record dst {
      chains = kept ++ src.chains;
      last_with_data = length kept + src.last_with_data;
      total_len = plus_size dst.total_len src.total_len;
      fine = dst.fine && chains_all_empty (from_empty (drop dst.last_with_data dst.chains));
    }

-- PREPEND_CHAIN, for a `src` that has chains. Where the pointer of `dst` is that to its first chain, it
-- points to the first of `src` as the code looks at it.
unfoldable pub prepend_chains : Evbuffer → Evbuffer → Evbuffer
prepend_chains dst src = record dst {
  chains = src.chains ++ dst.chains;
  last_with_data =
      if dst.last_with_data == 0 || is_some (get_elem? dst.chains dst.last_with_data)
      then length src.chains + dst.last_with_data
      else src.last_with_data;
  total_len = plus_size dst.total_len src.total_len;
}

-- The end of both: the bytes are counted, and the callbacks are told.
unfoldable pub moved : Evbuffer → Evbuffer → ℕ → Moved
moved out inp n = record {
  inp = invoke_callbacks (record inp { n_del_for_cb = plus_size inp.n_del_for_cb n });
  out = invoke_callbacks (record out { n_add_for_cb = plus_size out.n_add_for_cb n });
  ok = true;
}

-- evbuffer_add_buffer
unfoldable pub evbuffer_add_buffer : Bool → Evbuffer → Evbuffer → Moved
evbuffer_add_buffer same outbuf inbuf =
    if inbuf.total_len == 0 || same
    then record { out = outbuf; inp = inbuf; ok = true }
    else if outbuf.freeze_end || inbuf.freeze_start
    then record { out = outbuf; inp = inbuf; ok = false }
    else if outbuf.total_len == 0
    then moved (copy_chain outbuf inbuf) (zero_chain inbuf) inbuf.total_len
    else moved (append_chain outbuf inbuf) (zero_chain inbuf) inbuf.total_len

-- evbuffer_prepend_buffer
unfoldable pub evbuffer_prepend_buffer : Bool → Evbuffer → Evbuffer → Moved
evbuffer_prepend_buffer same outbuf inbuf =
    if inbuf.total_len == 0 || same
    then record { out = outbuf; inp = inbuf; ok = true }
    else if outbuf.freeze_start || inbuf.freeze_start
    then record { out = outbuf; inp = inbuf; ok = false }
    else if outbuf.total_len == 0
    then moved (copy_chain outbuf inbuf) (zero_chain inbuf) inbuf.total_len
    else moved (prepend_chains outbuf inbuf) (zero_chain inbuf) inbuf.total_len
