-- ===== src/Buffer/PullInto.antt =====
-- evbuffer_pullup: the first chain, the old one or a new one, gets bytes of the chains behind it.
use libevent.Common.{
  ℕ, suc, ◌+◌, ◌-◌, ◌≤◌, ◌<◌, ◌≡◌, ◌⊎◌, refl, sym, ap, ◌∙◌, ◌++◌, append_assoc, Bool, true, false,
  none, List, [], ◌∷◌, arith, length, length-append, take, drop, length-take, take-append-drop,
}
use libevent.Buffer.Defs.Chain.{Chain, Env, off, content, chain_new}
use libevent.Buffer.Defs.State.{Evbuffer}
use libevent.Buffer.Defs.Take.{gather, pull_into}
use libevent.Buffer.Chains.{IsChain, AllChains}
use libevent.Buffer.Invariant.{IsBuffer, bytes_of}
use libevent.Buffer.Copy.{take-one}
use libevent.Buffer.Gather.{gather-Gathers, pulled_last-settled}

-- What evbuffer_pullup promises: the bytes stay, and if it succeeds the first `size` of them stand
-- in the first chain.
pub record Pulls (env : Env) (b : Evbuffer) (size : ℕ) (out : Evbuffer × Bool) : Type 0 where
  pub valid : IsBuffer out.0
  pub same : bytes_of out.0 ≡ bytes_of b
  pub freeze_start : out.0.freeze_start ≡ b.freeze_start
  pub success :
      out.1 ≡ true
      → (c : Chain) × (rest : List Chain) × (out.0.chains ≡ c ∷ rest)
        × (size ≤ off c)
        × (take size c.bytes ≡ take size (bytes_of b))
  pub failure : out.1 ≡ false → (size ≡ 0) ⊎ ((b.total_len < size) ⊎ (chain_new env size ≡ none))

-- The first chain gets bytes of the chains behind it.
module _ (env : Env) (b : Evbuffer) (whole : ℕ) (tmp : Chain) (start : ℕ) (cs : List Chain)
    (size : ℕ) (v : IsBuffer b) (sound : AllChains cs) (enough : size ≤ length (content cs))
    (all : bytes_of b ≡ tmp.bytes ++ content cs) (long : whole ≡ off tmp + size)
    (filled : (xs : List ℕ) → length xs ≡ size → IsChain (record tmp { bytes = tmp.bytes ++ xs }))
    (one : start ≤ 1) (some_gone : start ≡ 0 → 0 < (gather cs size).removed)
    (placed : b.last_with_data < start + length cs)
    (settled : content (drop (suc b.last_with_data - start) cs) ≡ []) where
  pull_into-same : bytes_of (pull_into b tmp start cs size).0 ≡ bytes_of b
  unfolding pull_into content
  pull_into-same =
      let g = gather-Gathers cs size sound enough in
      ap (λ xs. (tmp.bytes ++ xs) ++ content (gather cs size).left) g.taken
      ∙ ap (λ ys. (tmp.bytes ++ take size (content cs)) ++ ys) g.left
      ∙ append_assoc tmp.bytes (take size (content cs)) (drop size (content cs))
      ∙ ap (λ xs. tmp.bytes ++ xs) (take-append-drop size (content cs))
      ∙ sym all

  pull_into-IsBuffer : IsBuffer (pull_into b tmp start cs size).0
  unfolding pull_into
  pull_into-IsBuffer =
      let g = gather-Gathers cs size sound enough in
      let taken = ap (length {A = ℕ}) g.taken ∙ length-take size (content cs) enough in
      let (inside, empty) =
        pulled_last-settled cs size b.last_with_data start (gather cs size) g one some_gone placed
          settled in
      record {
        total = v.total ∙ ap (length {A = ℕ}) (sym pull_into-same);
        small = v.small;
        placed = omega (arith, inside);
        settled = empty;
        sound = (filled (gather cs size).taken taken, g.sound);
        fine = v.fine;
      }

  pub pull_into-Pulls : Pulls env b whole (pull_into b tmp start cs size)
  pull_into-Pulls =
      let g = gather-Gathers cs size sound enough in
      let taken = ap (length {A = ℕ}) g.taken ∙ length-take size (content cs) enough in
      let xs : List ℕ = tmp.bytes ++ (gather cs size).taken in
      let fits = length-append tmp.bytes (gather cs size).taken in
      record {
        valid = pull_into-IsBuffer;
        same = pull_into-same;
        freeze_start = unfold pull_into in refl;
        success = λ _.
            unfold pull_into in
            (
              record tmp { bytes = xs },
              (gather cs size).left,
              refl,
              omega (arith, fits, taken),
              take-one whole xs (content (gather cs size).left) (omega (arith, fits, taken))
                  ∙ ap (take whole) (unfold pull_into content in pull_into-same),
            );
        failure = λ bad. unfold pull_into in cc;
      }
