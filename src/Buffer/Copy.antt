-- ===== src/Buffer/Copy.antt =====
-- evbuffer_copyout and evbuffer_copyout_from.
use libevent.Common.{
  ℕ, zero, suc, ◌+◌, ◌-◌, ◌^◌, ◌≤◌, ◌<◌, ◌≡◌, refl, sym, ap, ◌∙◌, ◌++◌, append-nil, ◌||◌, not, true,
  false, none, some, List, [], ◌∷◌, arith, length, take, drop, Bool-cases, ◌==◌, inl, inr, ltb, leb,
  if◌then◌else◌, length-drop, drop-append, take_all, take-append,
}
use mathlib.Core.Path.{subst}
use native.Mathlib.Decide.{ℕ_discrete}
use libevent.Buffer.Defs.Chain.{Chain, off, content, minus_size}
use libevent.Buffer.Defs.State.{Evbuffer, expect}
use libevent.Buffer.Defs.Take.{
  Copied, EvbufferPtr, copy_chains, copyout_at, copyout_from, evbuffer_copyout,
}
use libevent.Buffer.Chains.{AllChains}
use libevent.Buffer.Invariant.{IsBuffer, bytes_of, SameBytes}
use libevent.Buffer.Drain.{length-content}

-- A place in the first of some chains.
abbrev Starts : List Chain → ℕ → Type 0
Starts [] p = p ≡ 0
Starts (c ∷ cs) p = p ≤ off c

Starts-zero : (cs : List Chain) → Starts cs 0
Starts-zero [] = refl
Starts-zero (c ∷ cs) = omega arith

drop-first :
    (c : Chain) (cs : List Chain) (p : ℕ)
    → p ≤ off c
    → drop p (content (c ∷ cs)) ≡ drop p c.bytes ++ content cs
unfolding content
drop-first c cs p h =
    let z : p - off c ≡ 0 = omega arith in drop-append p c.bytes (content cs) ∙ rw z refl

take-both :
    (k n : ℕ) (xs ys : List ℕ)
    → length xs ≡ k
    → k ≤ n
    → take k xs ++ take (n - k) ys ≡ take n (xs ++ ys)
take-both k n xs ys long h =
    rw (take-append n xs ys, take_all k xs (omega arith), take_all n xs (omega arith), long) refl

pub take-one : (n : ℕ) (xs ys : List ℕ) → n ≤ length xs → take n xs ≡ take n (xs ++ ys)
take-one n xs ys h =
    let z : n - length xs ≡ 0 = omega arith in
    sym (take-append n xs ys ∙ rw z (append-nil (take n xs)))

-- The loop of evbuffer_copyout_from copies a prefix, where there are so many bytes.
copy_chains_lem :
    (cs : List Chain) (p datlen : ℕ)
    → AllChains cs
    → Starts cs p
    → p + datlen ≤ length (content cs)
    → copy_chains cs p datlen ≡ (true, take datlen (drop p (content cs)))
unfolding copy_chains
copy_chains_lem [] p datlen v s h = let z : datlen ≡ 0 = unfold content in omega arith in rw z refl
copy_chains_lem (c ∷ cs) p datlen v s h =
    let all = length-content c cs in
    let k : minus_size (off c) p ≡ off c - p = omega (arith, v.0.inside, v.0.small) in
    let long : length (drop p c.bytes) ≡ off c - p = length-drop p c.bytes in
    elim (ℕ_discrete datlen 0) [
      | yes z ↦ rw z refl
      | no some_more ↦
          let more : (datlen == 0) ≡ false = ground arith in
          elim (Bool-cases (leb (off c - p) datlen)) [
            | inl past ↦
                let le : off c - p ≤ datlen = ground (arith, past) in
                let ih =
                  copy_chains_lem cs 0 (datlen - (off c - p)) v.1 (Starts-zero cs) (omega arith) in
                rw (k, more, past, ih, drop-first c cs p s)
                  (ap (λ (xs : List ℕ). (true, xs))
                    (take-both (off c - p) datlen (drop p c.bytes) (content cs) long le))
            | inr inside ↦
                let fits : leb (datlen + p) (off c) ≡ true = ground (arith, inside, s) in
                rw (k, more, inside, fits, drop-first c cs p s)
                  (ap (λ (xs : List ℕ). (true, xs))
                    (take-one datlen (drop p c.bytes) (content cs) (ground (arith, inside, long))))
          ]
    ]

AllChains-drop : (i : ℕ) (cs : List Chain) → AllChains cs → AllChains (drop i cs)
AllChains-drop zero cs v = v
AllChains-drop (suc i) [] v = v
AllChains-drop (suc i) (c ∷ cs) v = AllChains-drop i cs v.1

-- A place in a buffer, by the index of a chain and the place in it, that is `pos` bytes from the
-- buffer's start.
pub record IsAt (b : Evbuffer) (chain pos_in_chain pos : ℕ) : Type 0 where
  pub starts : Starts (drop chain b.chains) pos_in_chain
  pub within : pos ≤ length (bytes_of b)
  pub suffix : drop pos_in_chain (content (drop chain b.chains)) ≡ drop pos (bytes_of b)

pub start-IsAt : (b : Evbuffer) → IsAt b 0 0 0
start-IsAt b = record { starts = Starts-zero b.chains; within = omega arith; suffix = refl }

-- How many bytes there are to copy.
abbrev pub available : Evbuffer → ℕ → ℕ → ℕ
available b pos datlen = if ltb (b.total_len - pos) datlen then b.total_len - pos else datlen

-- What evbuffer_copyout_from promises: the bytes from `pos` on, as many as asked for or as there
-- are; it fails only where there are such bytes and the buffer's start is frozen.
pub record Copies (b : Evbuffer) (pos datlen : ℕ) (out : Copied) : Type 0 where
  pub buf : SameBytes b out.buf
  pub result : out.result ≡ (
      if available b pos datlen == 0 || not b.freeze_start
      then some (available b pos datlen)
      else none)
  pub copied : out.out ≡ (
      if available b pos datlen == 0 || not b.freeze_start
      then take datlen (drop pos (bytes_of b))
      else [])

same-SameBytes : (b : Evbuffer) → SameBytes b b
same-SameBytes b = record {
  chains = refl;
  last_with_data = refl;
  total_len = refl;
  freeze_start = refl;
  freeze_end = refl;
  fine = refl;
}

pub take-available :
    (b : Evbuffer) (pos datlen : ℕ)
    → IsBuffer b
    → take (available b pos datlen) (drop pos (bytes_of b)) ≡ take datlen (drop pos (bytes_of b))
take-available b pos datlen v =
    let long = length-drop pos (bytes_of b) in
    elim (Bool-cases (ltb (b.total_len - pos) datlen)) [
      | inr fits ↦ rw fits refl
      | inl past ↦ rw past (
          take_all (b.total_len - pos) (drop pos (bytes_of b)) (omega (arith, long, v.total))
          ∙ sym (take_all datlen (drop pos (bytes_of b)) (ground (arith, past, long, v.total))))
    ]

Starts-le : (cs : List Chain) (p : ℕ) → Starts cs p → p ≤ length (content cs)
Starts-le [] p s = omega arith
Starts-le (c ∷ cs) p s = omega (arith, length-content c cs)

module _ (b : Evbuffer) (chain pos_in_chain n : ℕ) (xs : List ℕ)
    (copied : copy_chains (drop chain b.chains) pos_in_chain n ≡ (true, xs)) where
  copyout_at-same : SameBytes b (copyout_at b chain pos_in_chain n).buf
  unfolding copyout_at expect
  copyout_at-same = rw copied (record {
    chains = ground arith;
    last_with_data = ground arith;
    total_len = ground arith;
    freeze_start = ground arith;
    freeze_end = ground arith;
    fine = ground arith;
  })

  copyout_at-result :
      (copyout_at b chain pos_in_chain n).result
      ≡ (if n == 0 || not b.freeze_start then some n else none)
  unfolding copyout_at
  copyout_at-result = ground (arith, copied)

  copyout_at-out :
      (n ≡ 0 → xs ≡ [])
      → (copyout_at b chain pos_in_chain n).out ≡ (if n == 0 || not b.freeze_start then xs else [])
  unfolding copyout_at
  copyout_at-out none_left = ground (arith, copied, none_left)

module _ (b : Evbuffer) (chain pos_in_chain pos datlen : ℕ) (v : IsBuffer b)
    (at : IsAt b chain pos_in_chain pos) where
  prefix_copied :
      copy_chains (drop chain b.chains) pos_in_chain (available b pos datlen)
      ≡ (true, take datlen (drop pos (bytes_of b)))
  prefix_copied =
      let here : List ℕ = content (drop chain b.chains) in
      let long = ap (length {A = ℕ}) at.suffix in
      let before = length-drop pos (bytes_of b) in
      let after = length-drop pos_in_chain here in
      copy_chains_lem (drop chain b.chains) pos_in_chain (available b pos datlen)
        (AllChains-drop chain b.chains v.sound) at.starts
        (ground (
          arith,
          long,
          before,
          after,
          v.total,
          Starts-le (drop chain b.chains) pos_in_chain at.starts,
        ))
      ∙ ap (λ xs. (true, take (available b pos datlen) xs)) at.suffix
      ∙ ap (λ (xs : List ℕ). (true, xs)) (take-available b pos datlen v)

  pub copyout_at-Copies :
      Copies b pos datlen (copyout_at b chain pos_in_chain (available b pos datlen))
  copyout_at-Copies =
      let n = available b pos datlen in
      let xs = take datlen (drop pos (bytes_of b)) in
      record {
        buf = copyout_at-same b chain pos_in_chain n xs prefix_copied;
        result = copyout_at-result b chain pos_in_chain n xs prefix_copied;
        copied =
            copyout_at-out b chain pos_in_chain n xs prefix_copied
              (λ z. sym (take-available b pos datlen v) ∙ rw z refl);
      }

-- evbuffer_copyout on a right buffer: it copies the first bytes, as many as asked for or as there
-- are, unless there are such bytes and the buffer's start is frozen; the bytes stay.
pub evbuffer_copyout-Copies :
    (b : Evbuffer) (datlen : ℕ) → IsBuffer b → Copies b 0 datlen (evbuffer_copyout b datlen)
unfolding evbuffer_copyout copyout_from
evbuffer_copyout-Copies b datlen v =
    let e : (if ltb b.total_len datlen then b.total_len else datlen) ≡ available b 0 datlen =
      ground arith in
    subst (λ n. Copies b 0 datlen (copyout_at b 0 0 n)) (sym e)
      (copyout_at-Copies b 0 0 0 datlen v (start-IsAt b))

-- evbuffer_copyout_from a place of a right buffer.
pub copyout_from-Copies :
    (b : Evbuffer) (p : EvbufferPtr) (datlen : ℕ)
    → IsBuffer b
    → IsAt b p.chain p.pos_in_chain p.pos
    → p.pos + datlen < 2 ^ 63
    → Copies b p.pos datlen (copyout_from b (some p) datlen)
unfolding copyout_from
copyout_from-Copies b p datlen v at h =
    let fits : ltb (2 ^ 63 - 1 - p.pos) datlen ≡ false = ground arith in
    let e : (if ltb b.total_len (datlen + p.pos) then minus_size b.total_len p.pos else datlen)
        ≡ available b p.pos datlen =
      ground (arith, at.within, v.total, v.small) in
    simp fits (
      subst (λ n. Copies b p.pos datlen (copyout_at b p.chain p.pos_in_chain n)) (sym e)
        (copyout_at-Copies b p.chain p.pos_in_chain p.pos datlen v at))
