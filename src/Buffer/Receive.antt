-- ===== src/Buffer/Receive.antt =====
-- evbuffer_remove_buffer: what the destination receives, and the function as a whole.
use libevent.Common.{
  ℕ, ◌+◌, ◌%◌, ◌^◌, ◌≤◌, ◌<◌, ◌≡◌, ◌⊎◌, refl, sym, ap, ◌∙◌, ◌++◌, append-nil, append_assoc, ◌||◌,
  Bool, true, false, Option, none, some, List, arith, length, length-append, take, drop, Bool-cases,
  ◌==◌, inl, inr, leb, if◌then◌else◌, length-take, drop_all, take_all,
}
use native.Mathlib.Decide.{ℕ_discrete}
use libevent.Buffer.Defs.Chain.{Chain, Env, content, chain_new}
use libevent.Buffer.Defs.State.{Evbuffer}
use libevent.Buffer.Defs.RemoveBuffer.{
  Passed, pass_chains, leave_chains, copied_bytes, take_chains, remove_some, RemovedBuffer,
  evbuffer_remove_buffer,
}
use libevent.Buffer.Invariant.{IsBuffer, bytes_of, IsBuffer-same, invoke_callbacks-same}
use libevent.Buffer.Append.{Longer}
use libevent.Buffer.Move.{refused_by, evbuffer_add_buffer-Moves}
use libevent.Buffer.Defs.Move.{evbuffer_add_buffer}
use libevent.Buffer.Add.{Added, add_size, evbuffer_add-Added}
use libevent.Buffer.Defs.Add.{evbuffer_add}
use libevent.Buffer.RemoveBuffer.{AllFull, Passing, pass_chains-Passing, leave_chains-Shorter}
use libevent.Buffer.TakeChains.{take_chains-Longer, take_chains-freeze}

-- How many bytes evbuffer_remove_buffer is to move.
abbrev pub to_move : Evbuffer → ℕ → ℕ
to_move src datlen = if leb src.total_len datlen then src.total_len else datlen

-- What evbuffer_remove_buffer promises.
pub record RemovesFront (env : Env) (src dst : Evbuffer) (datlen : ℕ) (out : RemovedBuffer)
    : Type 0 where
  pub valid_src : IsBuffer out.src
  pub valid_dst : IsBuffer out.dst
  pub result : out.result ≡ some (to_move src datlen % 2 ^ 32)
  pub left : bytes_of out.src ≡ drop datlen (bytes_of src)
  pub received :
      (bytes_of out.dst ≡ bytes_of dst ++ take datlen (bytes_of src))
      ⊎ ((bytes_of out.dst ≡ bytes_of dst ++ content (pass_chains src.chains datlen).gone)
          × (chain_new env (
                add_size
                  (take_chains dst (pass_chains src.chains datlen))
                  (length (copied_bytes (pass_chains src.chains datlen))))
              ≡ none))

module _ (env : Env) (src dst : Evbuffer) (datlen : ℕ) (v : IsBuffer src) (w : IsBuffer dst)
    (thawed_dst : dst.freeze_end ≡ false) (small : src.total_len + dst.total_len < 2 ^ 64) where
  module _ (full : AllFull (take src.last_with_data src.chains)) (less : datlen < src.total_len)
      (c : Chain) (rest : List Chain)
      (r : Passing src.chains datlen src.last_with_data
        (pass_chains src.chains datlen)
        c
        rest) where
    abbrev p : Passed
    p = pass_chains src.chains datlen

    abbrev longer : Evbuffer × Bool
    longer = evbuffer_add env (take_chains dst p) (copied_bytes p)

    copied_are : copied_bytes p ≡ take p.datlen c.bytes
    unfolding copied_bytes
    copied_are = rw (r.left, copied_bytes) refl

    base : Longer dst (content p.gone) (take_chains dst p)
    base =
        take_chains-Longer dst p w r.full r.gone_sound r.nread (omega (arith, r.sum, small, less))

    longer_done : Added env (take_chains dst p) (copied_bytes p) longer
    longer_done = evbuffer_add-Added env (take_chains dst p) (copied_bytes p) base.valid

    received_bytes :
        (bytes_of longer.0 ≡ bytes_of dst ++ take datlen (bytes_of src))
        ⊎ ((bytes_of longer.0 ≡ bytes_of dst ++ content p.gone)
            × (chain_new env (add_size (take_chains dst p) (length (copied_bytes p))) ≡ none))
    received_bytes = elim (Bool-cases longer.1) [
      | inl ok ↦ inl (
          longer_done.success ok
          ∙ ap (λ xs. xs ++ copied_bytes p) base.same
          ∙ append_assoc (bytes_of dst) (content p.gone) (copied_bytes p)
          ∙ ap (λ xs. bytes_of dst ++ (content p.gone ++ xs)) copied_are
          ∙ ap (λ xs. bytes_of dst ++ xs) r.taken)
      | inr bad ↦
          let (kept, why) = longer_done.failure bad in
          let part =
            ap (length {A = ℕ}) copied_are
            ∙ length-take p.datlen c.bytes (omega (arith, r.within)) in
          let long =
            base.valid.total
            ∙ ap (length {A = ℕ}) base.same
            ∙ length-append (bytes_of dst) (content p.gone) in
          elim why [
            | inl frozen ↦ absurd (ground (arith, take_chains-freeze dst p, thawed_dst, frozen))
            | inr (inl big) ↦
                absurd (omega (arith, big, part, long, r.sum, r.nread, w.total, small, less))
            | inr (inr denied) ↦ inr (kept ∙ base.same, denied)
          ]
    ]

    some-RemovesFront : RemovesFront env src dst datlen (remove_some env src dst datlen)
    unfolding remove_some
    some-RemovesFront =
        let l = leave_chains-Shorter src datlen v less c rest r in
        let told_src = invoke_callbacks-same (leave_chains src p) in
        let told_dst = invoke_callbacks-same longer.0 in
        let sum = r.sum in
        let n : to_move src datlen ≡ p.nread + p.datlen = ground (arith, sum, less) in
        let result : ◌≡◌ {A = Option ℕ} (some ((p.nread + p.datlen) % 2 ^ 32))
            (some (to_move src datlen % 2 ^ 32)) =
          ap (λ k. some (k % 2 ^ 32)) (sym n) in
        elim (Bool-cases (p.nread + p.datlen == 0)) [
          | inl z ↦ simp z (record {
            valid_src = l.valid;
            valid_dst = longer_done.valid;
            result = result;
            left = l.same;
            received = received_bytes;
          })
          | inr some_moved ↦ simp some_moved (record {
            valid_src = IsBuffer-same told_src l.valid;
            valid_dst = IsBuffer-same told_dst longer_done.valid;
            result = result;
            left = ap content told_src.chains ∙ l.same;
            received = elim received_bytes [
              | inl all ↦ inl (ap content told_dst.chains ∙ all)
              | inr (part, denied) ↦ inr (ap content told_dst.chains ∙ part, denied)
            ];
          })
        ]

  whole-RemovesFront :
      src.freeze_start ≡ false
      → leb src.total_len datlen ≡ true
      → RemovesFront env src dst datlen (record {
        src = (evbuffer_add_buffer false dst src).inp;
        dst = (evbuffer_add_buffer false dst src).out;
        result = some (src.total_len % 2 ^ 32);
      })
  whole-RemovesFront thawed_src all =
      let m = evbuffer_add_buffer-Moves dst src w v (omega (arith, small)) in
      let go : refused_by dst src w v (omega (arith, small)) dst.freeze_end ≡ false =
        ground (arith, thawed_dst, thawed_src) in
      let past : length (bytes_of src) ≤ datlen = ground (arith, all, v.total) in
      record {
        valid_src = m.valid_inp;
        valid_dst = m.valid_out;
        result = rw all refl;
        left = m.inp ∙ rw go (sym (drop_all datlen (bytes_of src) past));
        received = inl (
            m.out
            ∙ rw go (ap (λ xs. bytes_of dst ++ xs) (sym (take_all datlen (bytes_of src) past))));
      }

  -- evbuffer_remove_buffer between two right buffers with less than 2^64 bytes together, neither
  -- frozen where it is changed, where no chain of the source before the last with data is empty:
  -- both stay right, and the source loses its first bytes, as many as asked for or as there are. The
  -- destination gets just these at its end, or, where a chain that it asks for cannot be had, only
  -- those of the chains that move whole.
  pub evbuffer_remove_buffer-RemovesFront :
      src.freeze_start ≡ false
      → AllFull (take src.last_with_data src.chains)
      → RemovesFront env src dst datlen (evbuffer_remove_buffer false env src dst datlen)
  unfolding evbuffer_remove_buffer
  evbuffer_remove_buffer-RemovesFront thawed_src full = elim (ℕ_discrete datlen 0) [
    | yes z ↦
        let first : (datlen == 0 || false) ≡ true = ground (arith, z) in
        let least : to_move src datlen ≡ 0 = ground (arith, z) in
        simp first (record {
          valid_src = v;
          valid_dst = w;
          result = ap (λ k. some (k % 2 ^ 32)) (sym least);
          left = ap (λ k. drop k (bytes_of src)) (sym z);
          received =
              inl (
                sym
                  (ap (λ k. bytes_of dst ++ take k (bytes_of src)) z ∙ append-nil (bytes_of dst)));
        })
    | no some_more ↦
        let more : (datlen == 0 || false) ≡ false = ground (arith, some_more) in
        let go : (dst.freeze_end || src.freeze_start) ≡ false =
          ground (arith, thawed_dst, thawed_src) in
        elim (Bool-cases (leb src.total_len datlen)) [
          | inl all ↦ simp (more, go, all) (whole-RemovesFront thawed_src all)
          | inr part ↦
              let less : datlen < src.total_len = ground (arith, part) in
              let (c, rest, r) =
                pass_chains-Passing src.chains datlen src.last_with_data v.sound full
                  (omega (arith, v.total, less)) v.placed v.settled in
              simp (more, go, part) (some-RemovesFront full less c rest r)
        ]
  ]
