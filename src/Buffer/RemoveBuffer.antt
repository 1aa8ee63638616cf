-- ===== src/Buffer/RemoveBuffer.antt =====
-- evbuffer_remove_buffer: what it takes from the source.
use libevent.Common.{
  ℕ, zero, suc, ◌+◌, ◌-◌, ◌≤◌, ◌<◌, ◌≡◌, refl, sym, ap, ◌∙◌, ◌++◌, append_assoc, ◌&&◌, not, true,
  false, List, [], ◌∷◌, arith, length, take, drop, nil_of_length, Bool-cases, ◌==◌, inl, inr, ltb,
  leb, if◌then◌else◌, length-drop,
}
use mathlib.Core.Path.{subst}
use libevent.Buffer.Defs.Chain.{Chain, off, content, minus_size}
use libevent.Buffer.Defs.State.{Evbuffer}
use libevent.Buffer.Defs.Take.{without_front}
use libevent.Buffer.Defs.RemoveBuffer.{Passed, pass_chains, leave_chains}
use libevent.Buffer.Chains.{IsChain, AllChains}
use libevent.Buffer.Invariant.{IsBuffer, bytes_of}
use libevent.Buffer.Drain.{
  Shorter, without_front-IsChain, content-without_front, length-content, drop-past,
}
use libevent.Buffer.Gather.{take-past, take-within}

-- No chain is empty.
abbrev pub AllFull : List Chain → Type 0
AllFull [] = Unit
AllFull (c ∷ cs) = (0 < off c) × AllFull cs

-- What the loop of evbuffer_remove_buffer passes of chains with more bytes than are to go, where the
-- ones before the last with data are not empty.
pub record Passing (cs : List Chain) (datlen last : ℕ) (p : Passed) (c : Chain) (rest : List Chain)
    : Type 0 where
  pub left : p.left ≡ c ∷ rest
  pub within : p.datlen < off c
  pub full : AllFull p.gone
  pub gone_sound : AllChains p.gone
  pub first_sound : IsChain c
  pub rest_sound : AllChains rest
  pub nread : p.nread ≡ length (content p.gone)
  pub sum : p.nread + p.datlen ≡ datlen
  pub taken : content p.gone ++ take p.datlen c.bytes ≡ take datlen (content cs)
  pub same : drop p.datlen (content (c ∷ rest)) ≡ drop datlen (content cs)
  pub few : length p.gone ≤ last
  pub placed : last ≤ length rest + length p.gone
  pub settled : content (drop (last - length p.gone) rest) ≡ []

module _ (c : Chain) (cs : List Chain) (datlen last : ℕ) (v : AllChains (c ∷ cs))
    (p : last ≤ length cs) (s : content (drop last cs) ≡ []) where
  stop-Passing :
      leb (off c) datlen ≡ false
      → Passing
          (c ∷ cs)
          datlen
          last
          (record { gone = []; left = c ∷ cs; nread = 0; datlen = datlen })
          c
          cs
  unfolding content
  stop-Passing stop =
      let z : last - 0 ≡ last = omega arith in
      record {
        left = refl;
        within = ground (arith, stop);
        full = tt;
        gone_sound = tt;
        first_sound = v.0;
        rest_sound = v.1;
        nread = refl;
        sum = omega arith;
        taken = sym (take-within c cs datlen (ground (arith, stop)));
        same = refl;
        few = omega arith;
        placed = omega arith;
        settled = rw z s;
      }

pub pass_chains-Passing :
    (cs : List Chain) (datlen last : ℕ)
    → AllChains cs
    → AllFull (take last cs)
    → datlen < length (content cs)
    → last ≤ length cs - 1
    → content (drop (suc last) cs) ≡ []
    → (c : Chain) × (rest : List Chain) × Passing cs datlen last (pass_chains cs datlen) c rest
unfolding pass_chains
pass_chains-Passing [] datlen last v f h p s = absurd (unfold content in omega arith)
pass_chains-Passing (c ∷ cs) datlen zero v f h p s =
    let z : length (content cs) ≡ 0 = ap (length {A = ℕ}) s in
    let stop : leb (off c) datlen ≡ false = ground (arith, length-content c cs, z) in
    rw stop (c, cs, stop-Passing c cs datlen 0 v (omega arith) s stop)
pass_chains-Passing (c ∷ cs) datlen (suc last) v f h p s = elim (Bool-cases (leb (off c) datlen)) [
  | inr stop ↦ rw stop (c, cs, stop-Passing c cs datlen (suc last) v (omega arith) s stop)
  | inl go ↦
      let le : off c ≤ datlen = ground (arith, go) in
      let (d, rest, r) =
        pass_chains-Passing cs (datlen - off c) last v.1 f.1 (omega (arith, length-content c cs))
          (omega arith) s in
      let q = pass_chains cs (datlen - off c) in
      let k : suc last - suc (length q.gone) ≡ last - length q.gone = omega arith in
      rw go (
        d,
        rest,
        record {
          left = r.left;
          within = r.within;
          full = (f.0, r.full);
          gone_sound = (v.0, r.gone_sound);
          first_sound = r.first_sound;
          rest_sound = r.rest_sound;
          nread = omega (arith, r.nread, length-content c q.gone);
          sum = omega (arith, r.sum);
          taken =
              ap (λ xs. xs ++ take q.datlen d.bytes) (content-cons c q.gone)
              ∙ append_assoc c.bytes (content q.gone) (take q.datlen d.bytes)
              ∙ ap (λ xs. c.bytes ++ xs) r.taken
              ∙ sym (take-past c cs datlen le);
          same = r.same ∙ sym (drop-past c cs datlen le);
          few = omega (arith, r.few);
          placed = omega (arith, r.placed);
          settled = rw k r.settled;
        },
      )
]
  where
    content-cons : (c : Chain) (cs : List Chain) → content (c ∷ cs) ≡ c.bytes ++ content cs
    content-cons c cs = unfold content in refl

pub full-content : (cs : List Chain) → AllFull cs → length (content cs) ≡ 0 → length cs ≡ 0
full-content [] f z = refl
full-content (c ∷ cs) f z = absurd (omega (arith, length-content c cs, f.0))

-- The source without the bytes that go.
module _ (src : Evbuffer) (datlen : ℕ) (v : IsBuffer src) (less : datlen < src.total_len)
    (c : Chain) (rest : List Chain)
    (r : Passing src.chains datlen src.last_with_data (pass_chains src.chains datlen) c rest) where
  abbrev passed : Passed
  passed = pass_chains src.chains datlen

  none_stay : (if passed.nread == 0 then passed.gone else []) ≡ []
  none_stay = elim (Bool-cases (passed.nread == 0)) [
    | inr some_read ↦ rw some_read refl
    | inl z ↦
        rw z
          (nil_of_length passed.gone (full-content passed.gone r.full (ground (arith, r.nread, z))))
  ]

  left-Shorter :
      (out : Evbuffer)
      → out.chains
        ≡ (if passed.nread == 0 then passed.gone else []) ++ without_front c passed.datlen ∷ rest
      → out.last_with_data ≡ (
          if leb src.last_with_data (length passed.gone)
          then 0
          else if passed.nread == 0
          then src.last_with_data
          else src.last_with_data - length passed.gone)
      → out.total_len ≡ minus_size src.total_len (passed.nread + passed.datlen)
      → out.fine ≡ true
      → Shorter src datlen out
  left-Shorter out chains last total fine =
      let now : out.chains ≡ without_front c passed.datlen ∷ rest =
        chains ∙ ap (λ xs. xs ++ without_front c passed.datlen ∷ rest) none_stay in
      let same : bytes_of out ≡ drop datlen (bytes_of src) =
        ap content now
        ∙ content-without_front c rest passed.datlen (omega (arith, r.within))
        ∙ r.same in
      let empty = full-content passed.gone r.full in
      let at_last : out.last_with_data ≡ src.last_with_data - length passed.gone =
        ground (arith, last, r.few, r.nread, empty) in
      let sum = r.sum in
      record {
        valid = record {
          total = omega (
            arith,
            total,
            sum,
            v.total,
            v.small,
            ap (length {A = ℕ}) same,
            length-drop datlen (bytes_of src),
          );
          small = omega (arith, total);
          placed = omega (arith, at_last, r.placed, ap (length {A = Chain}) now);
          settled =
              ap (λ cs. content (drop (suc out.last_with_data) cs)) now
              ∙ ap (λ k. content (drop k rest)) at_last
              ∙ r.settled;
          sound = subst AllChains (sym now) (
            without_front-IsChain c passed.datlen r.first_sound (omega (arith, r.within)),
            r.rest_sound,
          );
          fine = fine;
        };
        same = same;
      }

  pub leave_chains-Shorter : Shorter src datlen (leave_chains src passed)
  unfolding leave_chains
  leave_chains-Shorter =
      let asserted : not (src.last_with_data == 0 && ltb 0 (length passed.gone)) ≡ true =
        ground (arith, r.few) in
      left-Shorter (leave_chains src passed) (rw (r.left, leave_chains) refl)
        (rw (r.left, leave_chains) refl) (rw (r.left, leave_chains) refl)
        (rw (r.left, leave_chains, v.fine, asserted) refl)
