-- ===== src/Buffer/Add.antt =====
-- evbuffer_add.
use libevent.Common.{
  ℕ, ◌+◌, ◌-◌, ◌^◌, ◌≤◌, ◌<◌, ◌≡◌, ◌⊎◌, refl, ap, ◌∙◌, ◌++◌, ◌&&◌, ◌||◌, not, Bool, true, false,
  Option, none, some, List, [], arith, length, get_elem?, nil_of_length, Bool-cases, Option-cases,
  inl, inr, ltb, leb, get_elem?-lt,
}
use native.Mathlib.Decide.{ℕ_discrete}
use libevent.Buffer.Defs.Chain.{
  Chain, Env, off, content, chain_new, chain_max, chain_align, chain_space_len, room,
  should_realign,
}
use libevent.Buffer.Defs.State.{Evbuffer, expect, chain_insert, invoke_callbacks}
use libevent.Buffer.Defs.Add.{append_at, next_size, add_overflow, add_to, add_index, evbuffer_add}
use libevent.Buffer.Chains.{IsChain, AllChains-at, IsNew, chain_new-IsNew}
use libevent.Buffer.Invariant.{
  IsBuffer, bytes_of, IsBuffer-same, SameBytes, invoke_callbacks-same, expect-same,
  chain_insert-First,
}
use libevent.Buffer.Append.{Longer, Longer-same, append_at-Longer, filled-IsChain, aligned-IsChain}
use libevent.Buffer.Overflow.{add_overflow-Longer}

-- The size of the chain that evbuffer_add asks for, where it asks for one.
abbrev pub size_after : Option Chain → ℕ → ℕ
size_after none n = n
size_after (some c) n = next_size c n

abbrev pub add_size : Evbuffer → ℕ → ℕ
add_size b n = size_after (get_elem? b.chains (add_index b)) n

-- What evbuffer_add promises.
pub record Added (env : Env) (b : Evbuffer) (added : List ℕ) (out : Evbuffer × Bool) : Type 0 where
  pub valid : IsBuffer out.0
  pub success : out.1 ≡ true → bytes_of out.0 ≡ bytes_of b ++ added
  pub failure :
      out.1 ≡ false
      → (bytes_of out.0 ≡ bytes_of b)
        × ((b.freeze_end ≡ true)
            ⊎ ((2 ^ 64 ≤ b.total_len + length added)
                ⊎ (chain_new env (add_size b (length added)) ≡ none)))

module _ (env : Env) (b : Evbuffer) (added : List ℕ) where
  done-Added : (out : Evbuffer) → Longer b added out → Added env b added (out, true)
  done-Added out l = record { valid = l.valid; success = λ _. l.same; failure = λ bad. cc }

  refused-Added :
      (out : Evbuffer)
      → IsBuffer out
      → bytes_of out ≡ bytes_of b
      → chain_new env (add_size b (length added)) ≡ none
      → Added env b added (out, false)
  refused-Added out v same denied = record {
    valid = v;
    success = λ bad. cc;
    failure = λ _. (same, inr (inr denied));
  }

module _ (env : Env) (b : Evbuffer) (i : ℕ) (chain : Chain) (added : List ℕ) (v : IsBuffer b)
    (last : b.last_with_data ≡ i) (at : get_elem? b.chains i ≡ some chain)
    (small : b.total_len + length added < 2 ^ 64) (index : add_index b ≡ i) where
  asks : add_size b (length added) ≡ next_size chain (length added)
  asks = ap (λ o. size_after o (length added)) (ap (get_elem? b.chains) index ∙ at)

  checked : Evbuffer
  unfolding expect
  checked = expect (chain.immutable || leb chain.misalign chain_max) b

  checked-same : SameBytes b checked
  unfolding checked
  checked-same =
      let w = AllChains-at b.chains i chain v.sound at in
      expect-same b (chain.immutable || leb chain.misalign chain_max)
        (ground (arith, w.inside, w.writable))

  checked-Longer :
      (c : Chain)
      → c.bytes ≡ chain.bytes
      → IsChain (record c { bytes = c.bytes ++ added })
      → Longer b added (invoke_callbacks (append_at checked i c added))
  unfolding checked
  checked-Longer c same w =
      let s = checked-same in
      let l =
        append_at-Longer checked i chain c added (IsBuffer-same s v) (s.last_with_data ∙ last)
          (ap (λ cs. get_elem? cs i) s.chains ∙ at) same w (omega (arith, s.total_len)) in
      Longer-same (invoke_callbacks-same (append_at checked i c added))
        (record { valid = l.valid; same = l.same })

  aligned-Longer :
      should_realign chain (length added) ≡ true
      → Longer b added (invoke_callbacks (append_at checked i (chain_align chain) added))
  unfolding chain_align
  aligned-Longer r =
      let w = AllChains-at b.chains i chain v.sound at in
      checked-Longer (chain_align chain) refl (aligned-IsChain chain added w r)

  overflow-Longer :
      (tmp : Chain)
      → chain_space_len chain ≤ length added
      → IsNew (next_size chain (length added)) tmp
      → Longer b added (invoke_callbacks (add_overflow checked i chain tmp added))
  unfolding checked
  overflow-Longer tmp over new =
      let s = checked-same in
      let l =
        add_overflow-Longer checked i chain tmp added (IsBuffer-same s v) (s.last_with_data ∙ last)
          (ap (λ cs. get_elem? cs i) s.chains ∙ at) (omega (arith, s.total_len)) over new in
      record { valid = l.valid; same = l.same }

  pub add_to-Added : Added env b added (add_to env b i chain added)
  unfolding add_to checked
  add_to-Added =
      let w = AllChains-at b.chains i chain v.sound at in
      let n = next_size chain (length added) in
      elim (Bool-cases (not chain.immutable && leb (length added) (room chain))) [
        | inl fits ↦ rw fits (
            done-Added env b added _
              (checked-Longer chain refl (filled-IsChain chain added w (ground (arith, fits)))))
        | inr full ↦
            elim (Bool-cases (not chain.immutable && should_realign chain (length added))) [
              | inl r ↦ rw (full, r) (done-Added env b added _ (aligned-Longer (ground (arith, r))))
              | inr r ↦
                  rw (full, r)
                    (elim (Option-cases (chain_new env n)) [
                      | inl denied ↦ rw denied (
                          refused-Added env b added checked (IsBuffer-same checked-same v)
                            (ap content checked-same.chains) (ap (chain_new env) asks ∙ denied))
                      | inr (tmp, got) ↦ rw got (
                          done-Added env b added _
                            (overflow-Longer tmp (over full) (chain_new-IsNew env n tmp got)))
                    ])
            ]
      ]
    where
      over :
          (not chain.immutable && leb (length added) (room chain)) ≡ false
          → chain_space_len chain ≤ length added
      over full = unfold chain_space_len in ground (arith, full)

fits_first :
    (env : Env) (b : Evbuffer) (chain : Chain) (added : List ℕ)
    → IsNew (length added) chain
    → (add_to env b 0 chain added).1 ≡ true
unfolding add_to room
fits_first env b chain added new =
    let none_yet : off chain ≡ 0 = ap (length {A = ℕ}) new.empty in
    ground (arith, none_yet, new.start, new.fits, new.bound, new.mutable)

module _ (env : Env) (b : Evbuffer) (added : List ℕ) (v : IsBuffer b) where
  -- A new chain has room for all, so that no other is asked for.
  first-Added :
      (chain : Chain)
      → b.chains ≡ []
      → chain_new env (length added) ≡ some chain
      → b.total_len + length added < 2 ^ 64
      → Added env b added (add_to env (chain_insert b chain) 0 chain added)
  first-Added chain nothing got small =
      let new = chain_new-IsNew env (length added) chain got in
      let f = chain_insert-First b chain (length added) v nothing new in
      let a =
        add_to-Added env (chain_insert b chain) 0 chain added f.valid f.last
          (ap (λ cs. get_elem? cs 0) f.chains) (omega (arith, f.total))
          (unfold add_index in ground (arith, f.last, ap (length {A = Chain}) f.chains)) in
      let done = fits_first env (chain_insert b chain) chain added new in
      record {
        valid = a.valid;
        success = λ ok. a.success ok ∙ ap (λ xs. xs ++ added) f.same;
        failure = λ bad. absurd (ground (arith, bad, done));
      }

  stopped-Added :
      (b.freeze_end || ltb (2 ^ 64 - 1 - b.total_len) (length added)) ≡ true
      → Added env b added (b, false)
  stopped-Added stop = record {
    valid = v;
    success = λ bad. cc;
    failure = λ _. (
      refl,
      elim (Bool-cases b.freeze_end) [
        | inl f ↦ inl f
        | inr f ↦ inr (inl (ground (arith, v.small, stop, f)))
      ],
    );
  }

  -- evbuffer_add on a right buffer: the buffer stays right; if it succeeds the bytes come behind
  -- the others, and if it fails the buffer has the bytes that it had, and its end is frozen, the
  -- length would overflow, or a chain of the size that it asks for cannot be had.
  pub evbuffer_add-Added : Added env b added (evbuffer_add env b added)
  unfolding evbuffer_add add_index
  evbuffer_add-Added =
      elim (Bool-cases (b.freeze_end || ltb (2 ^ 64 - 1 - b.total_len) (length added))) [
        | inl stop ↦ rw stop (stopped-Added stop)
        | inr go ↦
            let thawed : b.freeze_end ≡ false = ground (arith, go) in
            let small : b.total_len + length added < 2 ^ 64 = ground (arith, go, v.small) in
            elim (ℕ_discrete (length b.chains) 0) [
              | yes z ↦
                  let nothing = nil_of_length b.chains z in
                  let none_there : get_elem? b.chains (add_index b) ≡ none = rw nothing refl in
                  elim (Option-cases (chain_new env (length added))) [
                    | inl denied ↦
                        rw (go, none_there, denied)
                          (refused-Added env b added b v refl (
                            ap (λ o. chain_new env (size_after o (length added))) none_there
                            ∙ denied))
                    | inr (chain, got) ↦
                        rw (go, none_there, got) (first-Added chain nothing got small)
                  ]
              | no some_there ↦
                  let last : b.last_with_data ≡ add_index b = ground (arith, v.placed) in
                  elim (Option-cases (get_elem? b.chains (add_index b))) [
                    | inl out ↦
                        absurd
                          (ground (arith, out, v.placed, last, get_elem?-lt b.chains (add_index b)))
                    | inr (chain, at) ↦
                        rw (go, at)
                          (add_to-Added env b (add_index b) chain added v last at small refl)
                  ]
            ]
      ]
