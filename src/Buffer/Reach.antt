-- ===== src/Buffer/Reach.antt =====
-- The buffers that come from new ones by calls of evbuffer_add, evbuffer_prepend, evbuffer_drain,
-- evbuffer_copyout, evbuffer_remove, evbuffer_pullup, evbuffer_add_buffer, evbuffer_prepend_buffer,
-- evbuffer_remove_buffer, evbuffer_freeze and evbuffer_unfreeze and by the deferred callback.
use libevent.Common.{ℕ, ◌+◌, ◌^◌, ◌<◌, ◌≡◌, take, Bool, true, false, Option, List}
use libevent.Buffer.Defs.Chain.{Env}
use libevent.Buffer.Defs.State.{
  Evbuffer, evbuffer_new, evbuffer_freeze, evbuffer_unfreeze, deferred_callback,
}
use libevent.Buffer.Defs.Add.{evbuffer_add, evbuffer_prepend}
use libevent.Buffer.Defs.Take.{evbuffer_drain, evbuffer_copyout, evbuffer_remove, evbuffer_pullup}
use libevent.Buffer.Defs.Move.{evbuffer_add_buffer, evbuffer_prepend_buffer}
use libevent.Buffer.Defs.RemoveBuffer.{evbuffer_remove_buffer}
use libevent.Buffer.RemoveBuffer.{AllFull}
use libevent.Buffer.Receive.{RemovesFront, evbuffer_remove_buffer-RemovesFront}
use libevent.Buffer.Invariant.{IsBuffer, IsBuffer-same, evbuffer_new-IsBuffer, run_callbacks-same}
use libevent.Buffer.Add.{evbuffer_add-Added}
use libevent.Buffer.Prepend.{evbuffer_prepend-Prepends}
use libevent.Buffer.Drain.{evbuffer_drain-Drains}
use libevent.Buffer.Copy.{evbuffer_copyout-Copies}
use libevent.Buffer.Remove.{evbuffer_remove-Removes}
use libevent.Buffer.Pullup.{evbuffer_pullup-Pulls}
use libevent.Buffer.Move.{evbuffer_add_buffer-Moves, evbuffer_prepend_buffer-Moves}

-- What a caller of evbuffer_remove_buffer must see to: neither buffer is frozen where it is changed,
-- they have less than 2^64 bytes together, and no chain of the source before the last with data is
-- empty.
pub record Removable (src dst : Evbuffer) : Type 0 where
  pub thawed_src : src.freeze_start ≡ false
  pub thawed_dst : dst.freeze_end ≡ false
  pub small : src.total_len + dst.total_len < 2 ^ 64
  pub full : AllFull (take src.last_with_data src.chains)

-- A buffer that these calls have made from new ones; at each call memory may be had or not, and a buffer
-- that moves into another one has been made in the same way.
pub data Reached : Evbuffer → Type 0 where
  new : Reached evbuffer_new
  add :
      {b : Evbuffer} (env : Env) (added : List ℕ) → Reached b → Reached (evbuffer_add env b added).0
  prepend :
      {b : Evbuffer} (env : Env) (added : List ℕ)
      → Reached b
      → Reached (evbuffer_prepend env b added).0
  drain : {b : Evbuffer} (len : ℕ) → Reached b → Reached (evbuffer_drain b len).0
  copyout : {b : Evbuffer} (len : ℕ) → Reached b → Reached (evbuffer_copyout b len).buf
  remove : {b : Evbuffer} (len : ℕ) → Reached b → Reached (evbuffer_remove b len).buf
  pullup :
      {b : Evbuffer} (env : Env) (size : Option ℕ)
      → Reached b
      → b.total_len < 2 ^ 63
      → Reached (evbuffer_pullup env b size).0
  add_buffer_out :
      {b c : Evbuffer}
      → Reached b
      → Reached c
      → b.total_len + c.total_len < 2 ^ 64
      → Reached (evbuffer_add_buffer false b c).out
  add_buffer_in :
      {b c : Evbuffer}
      → Reached b
      → Reached c
      → b.total_len + c.total_len < 2 ^ 64
      → Reached (evbuffer_add_buffer false b c).inp
  prepend_buffer_out :
      {b c : Evbuffer}
      → Reached b
      → Reached c
      → b.total_len + c.total_len < 2 ^ 64
      → Reached (evbuffer_prepend_buffer false b c).out
  prepend_buffer_in :
      {b c : Evbuffer}
      → Reached b
      → Reached c
      → b.total_len + c.total_len < 2 ^ 64
      → Reached (evbuffer_prepend_buffer false b c).inp
  remove_buffer_src :
      {b c : Evbuffer} (env : Env) (datlen : ℕ)
      → Reached b
      → Reached c
      → Removable b c
      → Reached (evbuffer_remove_buffer false env b c datlen).src
  remove_buffer_dst :
      {b c : Evbuffer} (env : Env) (datlen : ℕ)
      → Reached b
      → Reached c
      → Removable b c
      → Reached (evbuffer_remove_buffer false env b c datlen).dst
  freeze : {b : Evbuffer} (at_front : Bool) → Reached b → Reached (evbuffer_freeze b at_front)
  unfreeze : {b : Evbuffer} (at_front : Bool) → Reached b → Reached (evbuffer_unfreeze b at_front)
  deferred : {b : Evbuffer} → Reached b → Reached (deferred_callback b)

freeze-IsBuffer :
    (b : Evbuffer) (at_front : Bool) → IsBuffer b → IsBuffer (evbuffer_freeze b at_front)
unfolding evbuffer_freeze
freeze-IsBuffer b true v = record {
  total = v.total;
  small = v.small;
  placed = v.placed;
  settled = v.settled;
  sound = v.sound;
  fine = v.fine;
}
freeze-IsBuffer b false v = record {
  total = v.total;
  small = v.small;
  placed = v.placed;
  settled = v.settled;
  sound = v.sound;
  fine = v.fine;
}

unfreeze-IsBuffer :
    (b : Evbuffer) (at_front : Bool) → IsBuffer b → IsBuffer (evbuffer_unfreeze b at_front)
unfolding evbuffer_unfreeze
unfreeze-IsBuffer b true v = record {
  total = v.total;
  small = v.small;
  placed = v.placed;
  settled = v.settled;
  sound = v.sound;
  fine = v.fine;
}
unfreeze-IsBuffer b false v = record {
  total = v.total;
  small = v.small;
  placed = v.placed;
  settled = v.settled;
  sound = v.sound;
  fine = v.fine;
}

deferred-IsBuffer : (b : Evbuffer) → IsBuffer b → IsBuffer (deferred_callback b)
unfolding deferred_callback
deferred-IsBuffer b v =
    IsBuffer-same (run_callbacks-same (record b { deferred = false }) true) (record {
      total = v.total;
      small = v.small;
      placed = v.placed;
      settled = v.settled;
      sound = v.sound;
      fine = v.fine;
    })

removed-RemovesFront :
    (b c : Evbuffer) (env : Env) (n : ℕ)
    → IsBuffer b
    → IsBuffer c
    → Removable b c
    → RemovesFront env b c n (evbuffer_remove_buffer false env b c n)
removed-RemovesFront b c env n v w h =
    evbuffer_remove_buffer-RemovesFront env b c n v w h.thawed_dst h.small h.thawed_src h.full

-- Every buffer that comes from new ones by calls of evbuffer_add, evbuffer_prepend, evbuffer_drain,
-- evbuffer_copyout, evbuffer_remove, evbuffer_pullup, evbuffer_add_buffer, evbuffer_prepend_buffer,
-- evbuffer_remove_buffer, evbuffer_freeze, evbuffer_unfreeze and the deferred callback is right, and
-- no assertion has failed in it. Where two buffers take part they are not the same and have less
-- than 2^64 bytes together, where bytes are pulled up there are less than 2^63, and for
-- evbuffer_remove_buffer neither is frozen where it is changed and no chain of the source before the
-- last with data is empty.
pub Reached-IsBuffer : {b : Evbuffer} → Reached b → IsBuffer b
Reached-IsBuffer new = evbuffer_new-IsBuffer
Reached-IsBuffer (add {b} env added r) = (evbuffer_add-Added env b added (Reached-IsBuffer r)).valid
Reached-IsBuffer (prepend {b} env added r) =
    (evbuffer_prepend-Prepends env b added (Reached-IsBuffer r)).valid
Reached-IsBuffer (drain {b} len r) = (evbuffer_drain-Drains b len (Reached-IsBuffer r)).valid
Reached-IsBuffer (copyout {b} len r) =
    IsBuffer-same (evbuffer_copyout-Copies b len (Reached-IsBuffer r)).buf (Reached-IsBuffer r)
Reached-IsBuffer (remove {b} len r) = (evbuffer_remove-Removes b len (Reached-IsBuffer r)).valid
Reached-IsBuffer (pullup {b} env size r h) =
    (evbuffer_pullup-Pulls env b size (Reached-IsBuffer r) h).valid
Reached-IsBuffer (add_buffer_out {b} {c} r s h) =
    (evbuffer_add_buffer-Moves b c (Reached-IsBuffer r) (Reached-IsBuffer s) h).valid_out
Reached-IsBuffer (add_buffer_in {b} {c} r s h) =
    (evbuffer_add_buffer-Moves b c (Reached-IsBuffer r) (Reached-IsBuffer s) h).valid_inp
Reached-IsBuffer (prepend_buffer_out {b} {c} r s h) =
    (evbuffer_prepend_buffer-Moves b c (Reached-IsBuffer r) (Reached-IsBuffer s) h).valid_out
Reached-IsBuffer (prepend_buffer_in {b} {c} r s h) =
    (evbuffer_prepend_buffer-Moves b c (Reached-IsBuffer r) (Reached-IsBuffer s) h).valid_inp
Reached-IsBuffer (remove_buffer_src {b} {c} env n r s h) =
    (removed-RemovesFront b c env n (Reached-IsBuffer r) (Reached-IsBuffer s) h).valid_src
Reached-IsBuffer (remove_buffer_dst {b} {c} env n r s h) =
    (removed-RemovesFront b c env n (Reached-IsBuffer r) (Reached-IsBuffer s) h).valid_dst
Reached-IsBuffer (freeze {b} at_front r) = freeze-IsBuffer b at_front (Reached-IsBuffer r)
Reached-IsBuffer (unfreeze {b} at_front r) = unfreeze-IsBuffer b at_front (Reached-IsBuffer r)
Reached-IsBuffer (deferred {b} r) = deferred-IsBuffer b (Reached-IsBuffer r)
