-- ===== src/Buffer/Overflow.antt =====
-- evbuffer_add: the last chain is filled and the rest goes to a new one.
use libevent.Common.{
  ℕ, ◌+◌, ◌^◌, ◌≤◌, ◌<◌, ◌≡◌, refl, ap, ◌∙◌, ◌++◌, append_assoc, some, List, arith, length,
  length-append, take, drop, get_elem?, length-take, length-drop, take-append-drop,
}
use libevent.Buffer.Defs.Chain.{Chain, chain_space_len}
use libevent.Buffer.Defs.State.{Evbuffer, chain_insert, invoke_callbacks}
use libevent.Buffer.Defs.Add.{append_at, next_size, add_overflow}
use libevent.Buffer.Chains.{AllChains-at, IsNew, space-room}
use libevent.Buffer.Invariant.{
  IsBuffer, bytes_of, IsBuffer-same, invoke_callbacks-same, added-same, chain_insert-Inserted,
}
use libevent.Buffer.Append.{
  Longer, Longer-same, append_at-Longer, filled-IsChain, new-IsChain, next_size_fits,
}

module _ (b : Evbuffer) (i : ℕ) (chain tmp : Chain) (added : List ℕ) (v : IsBuffer b)
    (last : b.last_with_data ≡ i) (at : get_elem? b.chains i ≡ some chain)
    (small : b.total_len + length added < 2 ^ 64) (over : chain_space_len chain ≤ length added)
    (new : IsNew (next_size chain (length added)) tmp) where
  abbrev remain : ℕ
  remain = chain_space_len chain

  filled-Longer : Longer b (take remain added) (append_at b i chain (take remain added))
  filled-Longer =
      let w = AllChains-at b.chains i chain v.sound at in
      let part = length-take remain added over in
      append_at-Longer b i chain chain (take remain added) v last at refl
        (filled-IsChain chain (take remain added) w (omega (arith, part, space-room chain)))
        (omega (arith, part))

  pub add_overflow-Longer : Longer b added (invoke_callbacks (add_overflow b i chain tmp added))
  unfolding add_overflow
  add_overflow-Longer =
      let f = append_at b i chain (take remain added) in
      let l = filled-Longer in
      let rest = drop remain added in
      let part = length-take remain added over in
      let left = length-drop remain added in
      let long = ap (length {A = ℕ}) l.same ∙ length-append (bytes_of b) (take remain added) in
      let c : Chain = record tmp { bytes = rest } in
      let ins =
        chain_insert-Inserted f c l.valid
          (new-IsChain tmp (next_size chain (length added)) rest new
            (omega (arith, left, next_size_fits chain (length added))))
          (omega (arith, l.valid.total, v.total, long, part, left)) in
      let all : bytes_of (chain_insert f c) ≡ bytes_of b ++ added =
        ins.same
        ∙ ap (λ xs. xs ++ rest) l.same
        ∙ append_assoc (bytes_of b) (take remain added) rest
        ∙ ap (λ xs. bytes_of b ++ xs) (take-append-drop remain added) in
      Longer-same (invoke_callbacks-same (add_overflow b i chain tmp added))
        (record { valid = IsBuffer-same (added-same (chain_insert f c) _) ins.valid; same = all })
