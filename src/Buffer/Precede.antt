-- ===== src/Buffer/Precede.antt =====
-- evbuffer_prepend: the bytes that the first chain takes, and those of a new first chain.
use libevent.Common.{
  ℕ, suc, ◌+◌, ◌-◌, ◌^◌, ◌≤◌, ◌<◌, ◌≡◌, refl, ap, ◌∙◌, ◌++◌, append_assoc, true, some, List, [],
  ◌∷◌, arith, length, length-append, drop, set, get_elem?, leb,
}
use libevent.Buffer.Defs.Chain.{Chain, content}
use libevent.Buffer.Defs.State.{Evbuffer, invoke_callbacks}
use libevent.Buffer.Defs.Add.{prepend_first, prepend_new}
use libevent.Buffer.Chains.{IsChain, AllChains-set, length-set, IsNew}
use libevent.Buffer.Invariant.{
  IsBuffer, bytes_of, IsBuffer-same, SameBytes, invoke_callbacks-same, grown-IsBuffer,
}

-- A buffer with `added` before the bytes of another.
pub record Preceded (b : Evbuffer) (added : List ℕ) (out : Evbuffer) : Type 0 where
  pub valid : IsBuffer out
  pub same : bytes_of out ≡ added ++ bytes_of b

pub Preceded-same :
    {b c out : Evbuffer} {added : List ℕ}
    → SameBytes b c
    → Preceded out added b
    → Preceded out added c
Preceded-same s l = record { valid = IsBuffer-same s l.valid; same = ap content s.chains ∙ l.same }

content-set_first :
    (cs : List Chain) (c d : Chain) (added : List ℕ)
    → get_elem? cs 0 ≡ some c
    → d.bytes ≡ added ++ c.bytes
    → content (set cs 0 d) ≡ added ++ content cs
unfolding content
content-set_first [] c d added at e = cc
content-set_first (b ∷ cs) c d added at e =
    let same : b.bytes ≡ c.bytes = cc in simp (e, append_assoc, same)

drop-set_first : (cs : List Chain) (d : Chain) (i : ℕ) → drop (suc i) (set cs 0 d) ≡ drop (suc i) cs
drop-set_first [] d i = refl
drop-set_first (b ∷ cs) d i = refl

pub prepend_first-Preceded :
    (b : Evbuffer) (was c : Chain) (added : List ℕ)
    → IsBuffer b
    → get_elem? b.chains 0 ≡ some was
    → c.bytes ≡ was.bytes
    → IsChain c
    → length added ≤ c.misalign
    → b.total_len + length added < 2 ^ 64
    → Preceded b added (prepend_first b c added)
unfolding prepend_first
prepend_first-Preceded b was c added v at bytes w fits h =
    let d : Chain = record c { bytes = added ++ c.bytes; misalign = c.misalign - length added } in
    let same : content (set b.chains 0 d) ≡ added ++ bytes_of b =
      content-set_first b.chains was d added at (ap (λ xs. added ++ xs) bytes) in
    let more = ap (length {A = ℕ}) same ∙ length-append added (bytes_of b) in
    record {
      valid =
          grown-IsBuffer b (prepend_first b c added) added v h refl (omega (arith, more))
            (omega (arith, length-set b.chains 0 d, v.placed))
            (rw (drop-set_first b.chains d b.last_with_data) v.settled)
            (AllChains-set b.chains 0 d v.sound (record {
              inside = omega (arith, length-append added c.bytes, w.inside, fits);
              small = w.small;
              writable = w.writable;
            }))
            v.fine;
      same = same;
    }

-- A new first chain holds the bytes at its end.
pub prepend_new-Preceded :
    (b : Evbuffer) (tmp : Chain) (added : List ℕ)
    → IsBuffer b
    → 0 < length b.chains
    → b.total_len + length added < 2 ^ 64
    → IsNew (length added) tmp
    → Preceded b added (invoke_callbacks (prepend_new b tmp added))
unfolding prepend_new
prepend_new-Preceded b tmp added v some_there h new =
    let same : bytes_of (prepend_new b tmp added) ≡ added ++ bytes_of b = unfold content in refl in
    let more = ap (length {A = ℕ}) same ∙ length-append added (bytes_of b) in
    let next : b.last_with_data + 1 ≡ suc b.last_with_data = omega arith in
    let fits : leb (length added) tmp.buffer_len ≡ true = ground (arith, new.fits) in
    Preceded-same (invoke_callbacks-same (prepend_new b tmp added)) (record {
      valid =
          grown-IsBuffer b (prepend_new b tmp added) added v h refl (omega (arith, more))
            (omega (arith, v.placed, some_there)) (rw next v.settled)
            (
              record {
                inside = omega (arith, new.fits);
                small = omega (arith, new.bound);
                writable = λ _. new.bound;
              },
              v.sound,
            )
            (ground (arith, fits, v.fine));
      same = same;
    })
