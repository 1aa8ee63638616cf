-- ===== src/Buffer/Defs/State.antt =====
-- struct evbuffer (evbuffer-internal.h), what buffer.c does to its list of chains, and how it tells
-- the callbacks. The pointer last_with_datap is the index of the chain that it points to.
use libevent.Common.{
  ℕ, suc, ◌+◌, ◌++◌, ◌&&◌, ◌||◌, not, Bool, true, false, List, [], ◌∷◌, ◌==◌, if◌then◌else◌, length,
  drop, get_elem?, is_some,
}
use libevent.Buffer.Defs.Chain.{
  Chain, off, plus_size, minus_size, chains_all_empty, from_empty, trimmed,
}

-- struct evbuffer_cb_entry: the callback, and the flags EVBUFFER_CB_ENABLED and _NODEFER.
pub record CbEntry : Type 0 where
  pub cb : ℕ
  pub enabled : Bool
  pub nodefer : Bool

-- struct evbuffer_cb_info
pub record CbInfo : Type 0 where
  pub orig_size : ℕ
  pub n_added : ℕ
  pub n_deleted : ℕ

pub record Evbuffer : Type 0 where
  pub chains : List Chain
  pub last_with_data : ℕ
  pub total_len : ℕ
  pub n_add_for_cb : ℕ
  pub n_del_for_cb : ℕ
  pub freeze_start : Bool
  pub freeze_end : Bool
  pub deferred_cbs : Bool
  pub callbacks : List CbEntry
  -- Whether the deferred callback waits in the event base.
  pub deferred : Bool
  -- The calls made so far, the last first.
  pub calls : List (ℕ × CbInfo)
  -- No EVUTIL_ASSERT has failed.
  pub fine : Bool

-- evbuffer_new
unfoldable pub evbuffer_new : Evbuffer
evbuffer_new = record {
  chains = [];
  last_with_data = 0;
  total_len = 0;
  n_add_for_cb = 0;
  n_del_for_cb = 0;
  freeze_start = false;
  freeze_end = false;
  deferred_cbs = false;
  callbacks = [];
  deferred = false;
  calls = [];
  fine = true;
}

-- EVUTIL_ASSERT
unfoldable pub expect : Bool → Evbuffer → Evbuffer
expect test buf = record buf { fine = buf.fine && test }

-- evbuffer_chain_insert
unfoldable pub chain_insert : Evbuffer → Chain → Evbuffer
chain_insert buf chain =
    if is_some (get_elem? buf.chains buf.last_with_data)
    then (let kept = trimmed buf.last_with_data buf.chains in
        record buf {
          chains = kept ++ chain ∷ [];
          last_with_data = if off chain == 0 then buf.last_with_data else length kept;
          total_len = plus_size buf.total_len (off chain);
          fine = buf.fine && chains_all_empty (from_empty (drop buf.last_with_data buf.chains));
        })
    else record buf {
      chains = chain ∷ [];
      total_len = plus_size buf.total_len (off chain);
      fine = buf.fine && (buf.last_with_data == 0 && length buf.chains == 0);
    }

-- How far advance_last_with_data goes, from the chain that is first in the list.
unfoldable pub advance_by : List Chain → ℕ
advance_by [] = 0
advance_by (c ∷ []) = 0
advance_by (c ∷ d ∷ cs) = if off d == 0 then 0 else suc (advance_by (d ∷ cs))

-- advance_last_with_data
unfoldable pub advance_last_with_data : Evbuffer → Evbuffer
advance_last_with_data buf = record buf {
  last_with_data = buf.last_with_data + advance_by (drop buf.last_with_data buf.chains);
}

-- The test (flags & mask) != masked_val of evbuffer_run_callbacks.
unfoldable pub is_called : Bool → Bool → CbEntry → Bool
is_called running_deferred deferred_cbs entry =
    if running_deferred
    then entry.enabled && not entry.nodefer
    else if deferred_cbs
    then entry.enabled && entry.nodefer
    else entry.enabled

-- The calls of the callbacks that are to be told, the last first, before those of earlier changes.
unfoldable pub told :
    (CbEntry → Bool) → CbInfo → List CbEntry → List (ℕ × CbInfo) → List (ℕ × CbInfo)
told test info [] calls = calls
told test info (entry ∷ rest) calls =
    told test info rest (if test entry then (entry.cb, info) ∷ calls else calls)

-- evbuffer_run_callbacks; the callbacks see the change and change nothing themselves.
unfoldable pub run_callbacks : Evbuffer → Bool → Evbuffer
run_callbacks buf running_deferred =
    let clear = running_deferred || not buf.deferred_cbs in
    let info : CbInfo = record {
      orig_size = minus_size (plus_size buf.total_len buf.n_del_for_cb) buf.n_add_for_cb;
      n_added = buf.n_add_for_cb;
      n_deleted = buf.n_del_for_cb;
    } in
    if length buf.callbacks == 0
    then record buf { n_add_for_cb = 0; n_del_for_cb = 0 }
    else if buf.n_add_for_cb == 0 && buf.n_del_for_cb == 0
    then buf
    else record buf {
      n_add_for_cb = if clear then 0 else buf.n_add_for_cb;
      n_del_for_cb = if clear then 0 else buf.n_del_for_cb;
      calls = told (is_called running_deferred buf.deferred_cbs) info buf.callbacks buf.calls;
    }

-- evbuffer_invoke_callbacks_
unfoldable pub invoke_callbacks : Evbuffer → Evbuffer
unfolding run_callbacks
invoke_callbacks buf =
    if length buf.callbacks == 0
    then record buf { n_add_for_cb = 0; n_del_for_cb = 0 }
    else run_callbacks (record buf { deferred = buf.deferred || buf.deferred_cbs }) false

-- evbuffer_deferred_callback
unfoldable pub deferred_callback : Evbuffer → Evbuffer
unfolding run_callbacks
deferred_callback buf = run_callbacks (record buf { deferred = false }) true

-- evbuffer_freeze and evbuffer_unfreeze
unfoldable pub evbuffer_freeze : Evbuffer → Bool → Evbuffer
evbuffer_freeze buf at_front =
    if at_front then record buf { freeze_start = true } else record buf { freeze_end = true }

unfoldable pub evbuffer_unfreeze : Evbuffer → Bool → Evbuffer
evbuffer_unfreeze buf at_front =
    if at_front then record buf { freeze_start = false } else record buf { freeze_end = false }

-- evbuffer_get_length
unfoldable pub evbuffer_get_length : Evbuffer → ℕ
evbuffer_get_length buf = buf.total_len
