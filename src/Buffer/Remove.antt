-- ===== src/Buffer/Remove.antt =====
-- evbuffer_remove.
use libevent.Common.{
  ℕ, ◌%◌, ◌^◌, ◌≡◌, refl, sym, ap, ◌∙◌, ◌++◌, ◌||◌, not, Bool, true, false, none, some, [], arith,
  take, drop, Bool-cases, ◌==◌, inl, inr, if◌then◌else◌, take-append-drop,
}
use libevent.Buffer.Defs.Chain.{content}
use libevent.Buffer.Defs.State.{Evbuffer}
use libevent.Buffer.Defs.Take.{
  Copied, copyout_from, evbuffer_copyout, evbuffer_drain, evbuffer_remove,
}
use libevent.Buffer.Invariant.{IsBuffer, bytes_of, IsBuffer-same}
use libevent.Buffer.Drain.{evbuffer_drain-Drains}
use libevent.Buffer.Copy.{Copies, available, take-available, evbuffer_copyout-Copies}

-- What evbuffer_remove promises.
pub record Removes (b : Evbuffer) (datlen : ℕ) (out : Copied) : Type 0 where
  pub valid : IsBuffer out.buf
  pub result : out.result ≡ (
      if available b 0 datlen == 0 || not b.freeze_start
      then some (available b 0 datlen % 2 ^ 32)
      else none)
  pub whole : out.out ++ bytes_of out.buf ≡ bytes_of b
  pub copied :
      out.out
      ≡ (if available b 0 datlen == 0 || not b.freeze_start then take datlen (bytes_of b) else [])

module _ (b : Evbuffer) (datlen : ℕ) (v : IsBuffer b) where
  abbrev taken : Copied
  taken = copyout_from b none datlen

  taken-Copies : Copies b 0 datlen taken
  taken-Copies = unfold evbuffer_copyout in evbuffer_copyout-Copies b datlen v

  -- Nothing has been drained, since nothing was copied.
  kept-Removes :
      (available b 0 datlen == 0 || b.freeze_start) ≡ true → taken.out ≡ [] → Removes b datlen taken
  kept-Removes still nothing =
      let c = taken-Copies in
      record {
        valid = IsBuffer-same c.buf v;
        result = ground (arith, c.result, still);
        whole = ap (λ xs. xs ++ bytes_of taken.buf) nothing ∙ ap content c.buf.chains;
        copied = c.copied;
      }

  abbrev after : Evbuffer × Bool
  after = evbuffer_drain taken.buf (available b 0 datlen)

  drained-Removes :
      (available b 0 datlen == 0) ≡ false
      → b.freeze_start ≡ false
      → Removes b datlen (record {
        buf = after.0;
        result = if after.1 then some (available b 0 datlen % 2 ^ 32) else none;
        out = taken.out;
      })
  drained-Removes some_more thawed =
      let c = taken-Copies in
      let d = evbuffer_drain-Drains taken.buf (available b 0 datlen) (IsBuffer-same c.buf v) in
      let ok : after.1 ≡ true = ground (arith, d.success, c.buf.freeze_start, thawed) in
      let out : taken.out ≡ take datlen (bytes_of b) =
        ground (arith, c.copied, some_more, thawed) in
      let left : bytes_of after.0 ≡ drop (available b 0 datlen) (bytes_of b) =
        d.same ∙ rw ok (ap (λ cs. drop (available b 0 datlen) (content cs)) c.buf.chains) in
      record {
        valid = d.valid;
        result = ground (arith, ok, some_more, thawed);
        whole =
            ap (λ xs. xs ++ bytes_of after.0) (out ∙ sym (take-available b 0 datlen v))
            ∙ ap (λ xs. take (available b 0 datlen) (bytes_of b) ++ xs) left
            ∙ take-append-drop (available b 0 datlen) (bytes_of b);
        copied = c.copied;
      }

  -- evbuffer_remove on a right buffer: the buffer stays right, what it gives and what it leaves are
  -- together the bytes that were there, and it gives the first bytes, as many as asked for or as
  -- there are, unless there are such bytes and the buffer's start is frozen.
  pub evbuffer_remove-Removes : Removes b datlen (evbuffer_remove b datlen)
  unfolding evbuffer_remove
  evbuffer_remove-Removes =
      let c = taken-Copies in
      elim (Bool-cases (available b 0 datlen == 0)) [
        | inl z ↦
            let r : taken.result ≡ some (available b 0 datlen) = ground (arith, c.result, z) in
            let zero_now : available b 0 datlen ≡ 0 = ground (arith, z) in
            let nothing : take datlen (bytes_of b) ≡ [] =
              sym (take-available b 0 datlen v) ∙ rw zero_now refl in
            let out : taken.out ≡ [] = ground (arith, c.copied, z, nothing) in
            rw (r, evbuffer_remove) (simp z (kept-Removes (ground arith) out))
        | inr some_more ↦ elim (Bool-cases b.freeze_start) [
          | inl frozen ↦
              let r : taken.result ≡ none = ground (arith, c.result, some_more, frozen) in
              let out : taken.out ≡ [] = ground (arith, c.copied, some_more, frozen) in
              rw (r, evbuffer_remove) (kept-Removes (ground arith) out)
          | inr thawed ↦
              let r : taken.result ≡ some (available b 0 datlen) =
                ground (arith, c.result, some_more, thawed) in
              rw (r, evbuffer_remove) (simp some_more (drained-Removes some_more thawed))
        ]
      ]
