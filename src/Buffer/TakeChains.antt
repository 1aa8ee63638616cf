-- ===== src/Buffer/TakeChains.antt =====
-- evbuffer_remove_buffer: the chains that move whole, at the end of the destination.
use libevent.Common.{
  ℕ, suc, ◌+◌, ◌-◌, ◌^◌, ◌≤◌, ◌<◌, ◌≡◌, refl, sym, ap, ◌∙◌, ◌++◌, append-nil, ◌&&◌, true, List, [],
  ◌∷◌, arith, length, length-append, drop, nil_of_length, Bool-cases, ◌==◌, inl, inr, length-drop,
  drop_all, drop-append,
}
use mathlib.Core.Path.{subst}
use native.Mathlib.Decide.{ℕ_discrete}
use libevent.Buffer.Defs.Chain.{
  Chain, content, plus_size, trimmed, up_to_empty, from_empty, chains_all_empty,
}
use libevent.Buffer.Defs.State.{Evbuffer, advance_by, advance_last_with_data}
use libevent.Buffer.Defs.RemoveBuffer.{Passed, take_chains}
use libevent.Buffer.Chains.{
  AllChains, AllChains-append, AllChains-trimmed, Trimmed, trimmed-Trimmed, content-append,
}
use libevent.Buffer.Invariant.{IsBuffer, bytes_of, grown-IsBuffer}
use libevent.Buffer.Append.{Longer}
use libevent.Buffer.RemoveBuffer.{AllFull}

-- The pointer to the last chain with data goes to the end where no chain behind it is empty.
advance-full : (c : Chain) (cs : List Chain) → AllFull cs → advance_by (c ∷ cs) ≡ length cs
unfolding advance_by
advance-full c [] f = refl
advance-full c (d ∷ cs) f = ground (arith, f.0, advance-full d cs f.1)

advance-drop :
    (xs ys : List Chain)
    → AllFull ys
    → length xs ≤ 1
    → 0 < length ys
    → advance_by (xs ++ ys) + 1 ≡ length xs + length ys
advance-drop [] [] f h p = absurd (omega arith)
advance-drop [] (y ∷ ys) f h p = omega (arith, advance-full y ys f.1)
advance-drop (x ∷ []) ys f h p = omega (arith, advance-full x ys f)
advance-drop (x ∷ y ∷ xs) ys f h p = absurd (omega arith)

-- What may be cut off a buffer's end, also where it has no chain.
kept-Trimmed :
    (b : Evbuffer)
    → IsBuffer b
    → Trimmed b.last_with_data b.chains (trimmed b.last_with_data b.chains)
unfolding trimmed up_to_empty from_empty chains_all_empty content
kept-Trimmed b v = elim (ℕ_discrete (length b.chains) 0) [
  | no some_there ↦
      trimmed-Trimmed b.last_with_data b.chains (omega (arith, v.placed, some_there)) v.settled
  | yes z ↦
      let nothing = nil_of_length b.chains z in
      let first : b.last_with_data ≡ 0 = omega (arith, v.placed, z) in
      rw (nothing, first)
        (record {
          same = refl;
          longer = omega arith;
          shorter = omega arith;
          settled = refl;
          only_empty = refl;
        })
]

-- The destination with the bytes of the chains that have been passed behind its own.
module _ (dst : Evbuffer) (p : Passed) (v : IsBuffer dst) (full : AllFull p.gone)
    (sound : AllChains p.gone) (nread : p.nread ≡ length (content p.gone))
    (small : dst.total_len + p.nread < 2 ^ 64) where
  abbrev kept : List Chain
  kept = trimmed dst.last_with_data dst.chains

  advanced :
      0 < length p.gone
      → dst.last_with_data + advance_by (drop dst.last_with_data (kept ++ p.gone)) + 1
        ≡ length (kept ++ p.gone)
  advanced some_gone =
      let t = kept-Trimmed dst v in
      let z : dst.last_with_data - length kept ≡ 0 = omega (arith, t.longer) in
      let long = length-drop dst.last_with_data kept in
      let split : drop dst.last_with_data (kept ++ p.gone)
          ≡ drop dst.last_with_data kept ++ p.gone =
        drop-append dst.last_with_data kept p.gone
        ∙ ap (λ k. drop dst.last_with_data kept ++ drop k p.gone) z in
      let far =
        advance-drop (drop dst.last_with_data kept) p.gone full (omega (arith, long, t.shorter))
          some_gone in
      omega (arith, ap advance_by split, far, long, t.longer, length-append kept p.gone)

  received-Longer :
      (out : Evbuffer)
      → 0 < length p.gone
      → out.chains ≡ kept ++ p.gone
      → out.last_with_data
        ≡ dst.last_with_data + advance_by (drop dst.last_with_data (kept ++ p.gone))
      → out.total_len ≡ plus_size dst.total_len p.nread
      → out.fine ≡ true
      → Longer dst (content p.gone) out
  received-Longer out some_gone chains last total fine =
      let t = kept-Trimmed dst v in
      let same : bytes_of out ≡ bytes_of dst ++ content p.gone =
        ap content chains ∙ content-append kept p.gone ∙ ap (λ xs. xs ++ content p.gone) t.same in
      let end : out.last_with_data + 1 ≡ length out.chains =
        omega (arith, last, advanced some_gone, ap (length {A = Chain}) chains) in
      let past = drop_all (suc out.last_with_data) out.chains (omega (arith, end)) in
      record {
        valid =
            grown-IsBuffer dst out (content p.gone) v (omega (arith, nread, small))
              (total ∙ ap (plus_size dst.total_len) nread)
              (ap (length {A = ℕ}) same ∙ length-append (bytes_of dst) (content p.gone))
              (omega (arith, end)) (ap content past ∙ unfold content in refl)
              (subst AllChains (sym chains) (
                AllChains-append kept p.gone
                  (AllChains-trimmed dst.last_with_data dst.chains v.sound) sound))
              fine;
        same = same;
      }

  -- The chains that have been passed add just their bytes to the end of the destination.
  pub take_chains-Longer : Longer dst (content p.gone) (take_chains dst p)
  unfolding take_chains advance_last_with_data
  take_chains-Longer = elim (Bool-cases (p.nread == 0)) [
    | inl z ↦
        let nothing : content p.gone ≡ [] =
          nil_of_length (content p.gone) (ground (arith, z, nread)) in
        simp z (record {
          valid = v;
          same = sym (ap (λ xs. bytes_of dst ++ xs) nothing ∙ append-nil (bytes_of dst));
        })
    | inr some_read ↦
        let some_gone : 0 < length p.gone = elim (ℕ_discrete (length p.gone) 0) [
          | no other ↦ omega (arith, other)
          | yes z ↦
              let e = ap content (nil_of_length p.gone z) in
              absurd (unfold content in ground (arith, ap (length {A = ℕ}) e, nread, some_read))
        ] in
        let t = kept-Trimmed dst v in
        let only : (dst.fine && chains_all_empty (from_empty (drop dst.last_with_data dst.chains)))
            ≡ true =
          ground (arith, v.fine, t.only_empty) in
        simp some_read (received-Longer _ some_gone refl refl refl only)
  ]

pub take_chains-freeze :
    (dst : Evbuffer) (p : Passed) → (take_chains dst p).freeze_end ≡ dst.freeze_end
unfolding take_chains advance_last_with_data
take_chains-freeze dst p = ground arith
