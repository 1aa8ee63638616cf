-- ===== src/Tagging/Marshal.antt =====
-- What has been marshalled comes back.
use libevent.Common.{
  ℕ, ◌-◌, ◌^◌, ◌<◌, ◌≤◌, ◌≡◌, inl, inr, refl, ap, ◌∙◌, ◌++◌, true, false, some, List, [], ltb,
  length, take, drop, take_all, take-append, drop_front, arith, length-append,
}
use libevent.Buffer.Defs.Chain.{Env}
use libevent.Buffer.Defs.State.{Evbuffer, evbuffer_get_length}
use libevent.Buffer.Invariant.{IsBuffer, bytes_of}
use libevent.Tagging.Codec.{decode_tag, encode_tag, encode_int}
use libevent.Tagging.Calls.{decode_tag_internal, evtag_decode, evtag_unmarshal_header}
use libevent.Tagging.Tags.{decode_tag-encode_tag, decode_tag_bounds}
use libevent.Tagging.Reading.{decode_tag_internal-Reads}
use libevent.Tagging.Numbers.{Yields, evtag_decode-Yields}

module _ (tag : ℕ) (h : tag < 2 ^ 32) where
  length-encode_tag-le : length (encode_tag tag) ≤ 5
  length-encode_tag-le =
      let e = decode_tag-encode_tag tag [] h in
      omega (arith, decode_tag_bounds (encode_tag tag ++ []) tag (length (encode_tag tag)) e)

  decode_tag-take :
      (rest : List ℕ)
      → decode_tag (take 5 (encode_tag tag ++ rest)) ≡ some (tag, length (encode_tag tag))
  decode_tag-take rest =
      ap decode_tag (take-append 5 (encode_tag tag) rest)
      ∙ ap (λ xs. decode_tag (xs ++ take (5 - length (encode_tag tag)) rest))
          (take_all 5 (encode_tag tag) length-encode_tag-le)
      ∙ decode_tag-encode_tag tag (take (5 - length (encode_tag tag)) rest) h

-- What marshals a header in front of some bytes.
abbrev pub header : ℕ → ℕ → List ℕ → List ℕ
header tag len rest = encode_tag tag ++ (encode_int len ++ rest)

module _ (env : Env) (b : Evbuffer) (v : IsBuffer b) (thawed : b.freeze_start ≡ false)
    (small : b.total_len < 2 ^ 63) where
  tag-Yields :
      (tag : ℕ) (rest : List ℕ)
      → bytes_of b ≡ encode_tag tag ++ rest
      → tag < 2 ^ 32
      → Yields env (tag, length (encode_tag tag)) rest (decode_tag_internal env b true)
  tag-Yields tag rest is h =
      let r = decode_tag_internal-Reads env b v thawed small true in
      record {
        valid = r.valid;
        thawed = r.freeze_start ∙ thawed;
        result = elim r.result [
          | inl good ↦
              let e = good ∙ ap (λ xs. decode_tag (take 5 xs)) is ∙ decode_tag-take tag h rest in
              inl (
                e,
                r.same
                    ∙ rw e
                        (ap (drop (length (encode_tag tag))) is ∙ drop_front (encode_tag tag) rest),
              )
          | inr failed ↦ inr failed
        ];
      }

  -- evtag_unmarshal_header on a right buffer of less than 2^63 bytes, whose start is not frozen, that
  -- begins with the header of a 32-bit tag and a length below 2^31 and has all its payload: it gives the tag and the length and leaves exactly what comes behind, unless memory is not to be
  -- had.
  pub evtag_unmarshal_header-Yields :
      (tag len : ℕ) (rest : List ℕ)
      → bytes_of b ≡ header tag len rest
      → tag < 2 ^ 32
      → len < 2 ^ 31
      → len ≤ length rest
      → Yields env (tag, len) rest (evtag_unmarshal_header env b)
  unfolding evtag_unmarshal_header evbuffer_get_length
  evtag_unmarshal_header-Yields tag len rest is h k fits =
      let t = tag-Yields tag (encode_int len ++ rest) is h in
      let tagged = decode_tag_internal env b true in
      elim t.result [
        | inr (failed, denied) ↦
            rw (failed, evtag_unmarshal_header)
              (record { valid = t.valid; thawed = t.thawed; result = inr (refl, denied) })
        | inl (got, left) ↦
            let less : tagged.0.total_len < 2 ^ 63 = omega (
              arith,
              t.valid.total,
              ap (length {A = ℕ}) left,
              v.total,
              ap (length {A = ℕ}) is,
              length-append (encode_tag tag) (encode_int len ++ rest),
              small,
            ) in
            let n =
              evtag_decode-Yields env tagged.0 len rest t.valid t.thawed less left (omega arith) in
            let sized = evtag_decode env tagged.0 8 in
            elim n.result [
              | inr (failed, denied) ↦
                  rw (got, evtag_unmarshal_header, failed)
                    (record { valid = n.valid; thawed = n.thawed; result = inr (refl, denied) })
              | inl (read, behind) ↦
                  let enough : ltb sized.0.total_len len ≡ false =
                    ground (arith, n.valid.total, ap (length {A = ℕ}) behind, fits) in
                  rw (got, evtag_unmarshal_header, read)
                    (simp enough
                      (record { valid = n.valid; thawed = n.thawed; result = inl (refl, behind) }))
            ]
      ]
