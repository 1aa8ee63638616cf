-- ===== src/Buffer/Tests.antt =====
-- The theorems on buffers at concrete ones.
use libevent.Common.{ℕ, ◌≡◌, ◌++◌, true, false, some, List, [], ◌∷◌, refl, arith, leb}
use libevent.Buffer.Defs.Chain.{
  Chain, Env, content, chain_new, alloc_size, doubled, room, chain_space_len, should_realign,
  trimmed, up_to_empty, from_empty, chains_all_empty,
}
use libevent.Buffer.Defs.State.{
  Evbuffer, evbuffer_new, chain_insert, invoke_callbacks, run_callbacks, is_called, told, expect,
}
use libevent.Buffer.Defs.Add.{
  evbuffer_add, add_index, add_to, add_overflow, append_at, next_size, evbuffer_prepend,
}
use libevent.Buffer.Defs.Take.{evbuffer_drain, evbuffer_remove, evbuffer_pullup}
use libevent.Buffer.Defs.RemoveBuffer.{evbuffer_remove_buffer}
use libevent.Buffer.Receive.{RemovesFront, evbuffer_remove_buffer-RemovesFront}
use libevent.Buffer.Defs.Move.{evbuffer_add_buffer, evbuffer_prepend_buffer}
use libevent.Buffer.Invariant.{IsBuffer, bytes_of}
use libevent.Buffer.Add.{Added, evbuffer_add-Added}
use libevent.Buffer.Prepend.{Prepends, evbuffer_prepend-Prepends}
use libevent.Buffer.Drain.{Drains, evbuffer_drain-Drains}
use libevent.Buffer.Remove.{Removes, evbuffer_remove-Removes}
use libevent.Buffer.PullInto.{Pulls}
use libevent.Buffer.Pullup.{evbuffer_pullup-Pulls}
use libevent.Buffer.Reach.{Reached, Reached-IsBuffer}
use libevent.Buffer.Move.{Moves, evbuffer_add_buffer-Moves, evbuffer_prepend_buffer-Moves}

abbrev plenty : Env
plenty = record { malloc_ok = λ n. leb n 4096 }

-- A chain of four bytes with three in it, and one of eight with two after one that has gone.
abbrev full_chain : Chain
full_chain = record { buffer_len = 4; misalign = 0; bytes = 7 ∷ 8 ∷ 9 ∷ []; immutable = false }

abbrev last_chain : Chain
last_chain = record { buffer_len = 8; misalign = 1; bytes = 5 ∷ 6 ∷ []; immutable = false }

abbrev spare_chain : Chain
spare_chain = record { buffer_len = 464; misalign = 0; bytes = []; immutable = false }

abbrev two_chains : Evbuffer
two_chains = record {
  chains = full_chain ∷ last_chain ∷ spare_chain ∷ [];
  last_with_data = 1;
  total_len = 5;
  n_add_for_cb = 0;
  n_del_for_cb = 0;
  freeze_start = false;
  freeze_end = false;
  deferred_cbs = false;
  callbacks = record { cb = 1; enabled = true; nodefer = false } ∷ [];
  deferred = false;
  calls = [];
  fine = true;
}

abbrev one_chain : Evbuffer
one_chain = record two_chains {
  chains = record last_chain { bytes = 1 ∷ 2 ∷ [] } ∷ [];
  last_with_data = 0;
  total_len = 2;
}

two_chains-IsBuffer : IsBuffer two_chains
unfolding content
two_chains-IsBuffer = record {
  total = refl;
  small = omega arith;
  placed = omega arith;
  settled = refl;
  sound = (
    record { inside = omega arith; small = omega arith; writable = λ _. omega arith },
    (
      record { inside = omega arith; small = omega arith; writable = λ _. omega arith },
      (record { inside = omega arith; small = omega arith; writable = λ _. omega arith }, tt),
    ),
  );
  fine = refl;
}

one_chain-IsBuffer : IsBuffer one_chain
unfolding content
one_chain-IsBuffer = record {
  total = refl;
  small = omega arith;
  placed = omega arith;
  settled = refl;
  sound = (record { inside = omega arith; small = omega arith; writable = λ _. omega arith }, tt);
  fine = refl;
}

abbrev ten_bytes : List ℕ
ten_bytes = 10 ∷ 11 ∷ 12 ∷ 13 ∷ 14 ∷ 15 ∷ 16 ∷ 17 ∷ 18 ∷ 19 ∷ []

evbuffer_add-Added_example :
    Added plenty two_chains ten_bytes (evbuffer_add plenty two_chains ten_bytes)
evbuffer_add-Added_example = evbuffer_add-Added plenty two_chains ten_bytes two_chains-IsBuffer

evbuffer_prepend-Prepends_example :
    Prepends plenty two_chains ten_bytes (evbuffer_prepend plenty two_chains ten_bytes)
evbuffer_prepend-Prepends_example =
    evbuffer_prepend-Prepends plenty two_chains ten_bytes two_chains-IsBuffer

evbuffer_drain-Drains_example : Drains two_chains 4 (evbuffer_drain two_chains 4)
evbuffer_drain-Drains_example = evbuffer_drain-Drains two_chains 4 two_chains-IsBuffer

evbuffer_remove-Removes_example : Removes two_chains 4 (evbuffer_remove two_chains 4)
evbuffer_remove-Removes_example = evbuffer_remove-Removes two_chains 4 two_chains-IsBuffer

evbuffer_pullup-Pulls_example :
    Pulls plenty two_chains 5 (evbuffer_pullup plenty two_chains (some 5))
evbuffer_pullup-Pulls_example =
    evbuffer_pullup-Pulls plenty two_chains (some 5) two_chains-IsBuffer (omega arith)

evbuffer_add_buffer-Moves_example :
    Moves two_chains one_chain
      (bytes_of two_chains ++ bytes_of one_chain)
      false
      (evbuffer_add_buffer false two_chains one_chain)
evbuffer_add_buffer-Moves_example =
    evbuffer_add_buffer-Moves two_chains one_chain two_chains-IsBuffer one_chain-IsBuffer
      (omega arith)

evbuffer_prepend_buffer-Moves_example :
    Moves two_chains one_chain
      (bytes_of one_chain ++ bytes_of two_chains)
      false
      (evbuffer_prepend_buffer false two_chains one_chain)
evbuffer_prepend_buffer-Moves_example =
    evbuffer_prepend_buffer-Moves two_chains one_chain two_chains-IsBuffer one_chain-IsBuffer
      (omega arith)

Reached-IsBuffer_example :
    IsBuffer (evbuffer_drain (evbuffer_add plenty evbuffer_new ten_bytes).0 3).0
Reached-IsBuffer_example =
    Reached-IsBuffer (Reached.drain 3 (Reached.add plenty ten_bytes Reached.new))

evbuffer_remove_buffer-RemovesFront_example :
    RemovesFront plenty two_chains one_chain 4
      (evbuffer_remove_buffer false plenty two_chains one_chain 4)
evbuffer_remove_buffer-RemovesFront_example =
    evbuffer_remove_buffer-RemovesFront plenty two_chains one_chain 4 two_chains-IsBuffer
      one_chain-IsBuffer refl (omega arith) refl (omega arith, tt)

-- A run: the chain is filled, and a new one takes the place of the empty one behind it.
added_run : bytes_of (evbuffer_add plenty two_chains ten_bytes).0 ≡ 7 ∷ 8 ∷ 9 ∷ 5 ∷ 6 ∷ ten_bytes
unfolding evbuffer_add add_index add_to add_overflow append_at next_size chain_new alloc_size
    doubled room chain_space_len should_realign chain_insert trimmed up_to_empty from_empty
    chains_all_empty invoke_callbacks run_callbacks is_called told expect content
added_run = refl
