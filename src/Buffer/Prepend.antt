-- ===== src/Buffer/Prepend.antt =====
-- evbuffer_prepend.
use libevent.Common.{
  ℕ, ◌+◌, ◌-◌, ◌^◌, ◌≤◌, ◌<◌, ◌≡◌, ◌⊎◌, refl, sym, ap, ◌∙◌, ◌++◌, append_assoc, ◌||◌, Bool, true,
  false, none, some, List, [], arith, length, take, drop, get_elem?, nil_of_length, Bool-cases,
  Option-cases, inl, inr, ltb, leb, length-drop, length-take, take-append-drop, lt_of_get_elem?,
  get_elem?-lt, drop_all, take_all,
}
use mathlib.Core.Path.{subst}
use libevent.Buffer.Defs.Chain.{Chain, Env, content, chain_new, chain_max}
use libevent.Buffer.Defs.State.{Evbuffer, expect, chain_insert}
use libevent.Buffer.Defs.Add.{
  prepend_first, prepend_chain, prepend_to, emptied_front, evbuffer_prepend,
}
use libevent.Buffer.Chains.{IsChain, AllChains-at, length-set, chain_new-IsNew}
use libevent.Buffer.Invariant.{
  IsBuffer, bytes_of, IsBuffer-same, invoke_callbacks-same, expect-same, chain_insert-First,
}
use libevent.Buffer.Precede.{Preceded, Preceded-same, prepend_first-Preceded, prepend_new-Preceded}

-- What evbuffer_prepend promises; if it fails, the end of what was to be added may stand in the
-- buffer already.
pub record Prepends (env : Env) (b : Evbuffer) (added : List ℕ) (out : Evbuffer × Bool)
    : Type 0 where
  pub valid : IsBuffer out.0
  pub success : out.1 ≡ true → bytes_of out.0 ≡ added ++ bytes_of b
  pub failure :
      out.1 ≡ false
      → ((k : ℕ) × (bytes_of out.0 ≡ drop k added ++ bytes_of b))
        × ((b.freeze_start ≡ true)
            ⊎ ((2 ^ 64 ≤ b.total_len + length added)
                ⊎ ((n : ℕ) × (n ≤ length added) × (chain_new env n ≡ none))))

module _ (env : Env) (b : Evbuffer) (added : List ℕ) where
  done-Prepends : (out : Evbuffer) → Preceded b added out → Prepends env b added (out, true)
  done-Prepends out l = record { valid = l.valid; success = λ _. l.same; failure = λ bad. cc }

-- The end of evbuffer_prepend, where `later`, the end of what is to be added, stands there already.
prepend_chain-Prepends :
    (env : Env) (b c : Evbuffer) (k : ℕ) (added : List ℕ)
    → Preceded b (drop k added) c
    → 0 < length c.chains
    → k ≤ length added
    → c.total_len + k < 2 ^ 64
    → Prepends env b added (prepend_chain env c (take k added))
unfolding prepend_chain
prepend_chain-Prepends env b c k added p some_there le h =
    let long = length-take k added le in
    elim (Option-cases (chain_new env (length (take k added)))) [
      | inl denied ↦
          rw (denied, prepend_chain)
            (record {
              valid = p.valid;
              success = λ bad. cc;
              failure = λ _.
                  ((k, p.same), inr (inr (length (take k added), omega (arith, long), denied)));
            })
      | inr (tmp, got) ↦
          let l =
            prepend_new-Preceded c tmp (take k added) p.valid some_there (omega (arith, long))
              (chain_new-IsNew env (length (take k added)) tmp got) in
          rw (got, prepend_chain)
            (done-Prepends env b added _ (record {
              valid = l.valid;
              same =
                  l.same
                  ∙ ap (λ xs. take k added ++ xs) p.same
                  ∙ sym (append_assoc (take k added) (drop k added) (bytes_of b))
                  ∙ ap (λ xs. xs ++ bytes_of b) (take-append-drop k added);
            }))
    ]

module _ (env : Env) (b : Evbuffer) (chain : Chain) (added : List ℕ) (v : IsBuffer b)
    (at : get_elem? b.chains 0 ≡ some chain) (small : b.total_len + length added < 2 ^ 64) where
  some_chain : 0 < length b.chains
  some_chain = lt_of_get_elem? b.chains 0 chain at

  front-IsChain : IsChain (emptied_front chain)
  unfolding emptied_front
  front-IsChain =
      let w = AllChains-at b.chains 0 chain v.sound at in
      record { inside = ground (arith, w.inside); small = w.small; writable = w.writable }

  abbrev checked : Evbuffer
  checked = expect (leb chain.misalign chain_max) b

  front-Preceded :
      (xs : List ℕ)
      → chain.immutable ≡ false
      → length xs ≤ (emptied_front chain).misalign
      → length xs ≤ length added
      → Preceded b xs (prepend_first checked (emptied_front chain) xs)
  unfolding emptied_front
  front-Preceded xs mutable fits le =
      let w = AllChains-at b.chains 0 chain v.sound at in
      let s =
        expect-same b (leb chain.misalign chain_max)
          (ground (arith, w.inside, w.writable, mutable)) in
      let l =
        prepend_first-Preceded checked chain (emptied_front chain) xs (IsBuffer-same s v)
          (ap (λ cs. get_elem? cs 0) s.chains ∙ at) refl front-IsChain fits
          (omega (arith, s.total_len)) in
      record { valid = l.valid; same = l.same ∙ ap (λ cs. xs ++ content cs) s.chains }

  whole-Prepends : Prepends env b added (prepend_chain env b added)
  whole-Prepends =
      let n = length added in
      let nothing : drop n added ≡ [] = drop_all n added (omega arith) in
      subst (λ xs. Prepends env b added (prepend_chain env b xs)) (take_all n added (omega arith))
        (prepend_chain-Prepends env b b n added
          (record { valid = v; same = ap (λ xs. xs ++ bytes_of b) (sym nothing) }) some_chain
          (omega arith) small)

  -- The end of the bytes goes to the space before the first chain, the rest to a new one.
  split-Prepends :
      (k : ℕ)
      → chain.immutable ≡ false
      → k ≤ length added
      → length added ≤ k + (emptied_front chain).misalign
      → Prepends env b added (
          prepend_chain env
            (prepend_first checked (emptied_front chain) (drop k added))
            (take k added))
  unfolding prepend_first expect
  split-Prepends k mutable le fits =
      let left = length-drop k added in
      let p = front-Preceded (drop k added) mutable (omega (arith, left)) (omega (arith, left)) in
      prepend_chain-Prepends env b (prepend_first checked (emptied_front chain) (drop k added)) k
        added p (omega (arith, length-set b.chains 0, some_chain)) le (omega (arith, left))

  prepend_to-Prepends : Prepends env b added (prepend_to env b chain added)
  unfolding prepend_to
  prepend_to-Prepends = elim (Bool-cases chain.immutable) [
    | inl fixed ↦ simp fixed whole-Prepends
    | inr mutable ↦ elim (Bool-cases (leb (length added) (emptied_front chain).misalign)) [
      | inl fits ↦
          let f = prepend_first checked (emptied_front chain) added in
          simp (mutable, fits)
            (done-Prepends env b added _ (
              Preceded-same (invoke_callbacks-same f)
                (front-Preceded added mutable (ground (arith, fits)) (omega arith))))
      | inr over ↦
          simp (mutable, over)
            (split-Prepends (length added - (emptied_front chain).misalign) mutable (omega arith)
              (omega arith))
    ]
  ]

module _ (env : Env) (b : Evbuffer) (added : List ℕ) (v : IsBuffer b) where
  stopped-Prepends :
      (b.freeze_start || ltb (2 ^ 64 - 1 - b.total_len) (length added)) ≡ true
      → Prepends env b added (b, false)
  stopped-Prepends stop = record {
    valid = v;
    success = λ bad. cc;
    failure = λ _. (
      (
        length added,
        ap (λ xs. xs ++ bytes_of b) (sym (drop_all (length added) added (omega arith))),
      ),
      elim (Bool-cases b.freeze_start) [
        | inl f ↦ inl f
        | inr f ↦ inr (inl (ground (arith, v.small, stop, f)))
      ],
    );
  }

  first-Prepends :
      (chain : Chain)
      → b.chains ≡ []
      → chain_new env (length added) ≡ some chain
      → b.freeze_start ≡ false
      → b.total_len + length added < 2 ^ 64
      → Prepends env b added (prepend_to env (chain_insert b chain) chain added)
  first-Prepends chain nothing got thawed small =
      let f =
        chain_insert-First b chain (length added) v nothing
          (chain_new-IsNew env (length added) chain got) in
      let a =
        prepend_to-Prepends env (chain_insert b chain) chain added f.valid
          (ap (λ cs. get_elem? cs 0) f.chains) (omega (arith, f.total)) in
      record {
        valid = a.valid;
        success = λ ok. a.success ok ∙ ap (λ xs. added ++ xs) f.same;
        failure = λ bad.
            let ((k, kept), why) = a.failure bad in
            (
              (k, kept ∙ ap (λ xs. drop k added ++ xs) f.same),
              elim why [
                | inl frozen ↦ inl (sym f.freeze_start ∙ frozen)
                | inr (inl big) ↦ inr (inl (omega (arith, f.total, big)))
                | inr (inr denied) ↦ inr (inr denied)
              ],
            );
      }

  -- evbuffer_prepend on a right buffer: the buffer stays right; if it succeeds the bytes come before
  -- the others. If it fails, an end of the bytes to be added may stand there all the same, and the
  -- start is frozen, the length would overflow, or a chain cannot be had.
  pub evbuffer_prepend-Prepends : Prepends env b added (evbuffer_prepend env b added)
  unfolding evbuffer_prepend
  evbuffer_prepend-Prepends =
      elim (Bool-cases (b.freeze_start || ltb (2 ^ 64 - 1 - b.total_len) (length added))) [
        | inl stop ↦ simp stop (stopped-Prepends stop)
        | inr go ↦
            let thawed : b.freeze_start ≡ false = ground (arith, go) in
            let small : b.total_len + length added < 2 ^ 64 = ground (arith, go, v.small) in
            elim (Option-cases (get_elem? b.chains 0)) [
              | inr (chain, at) ↦ rw (go, at) (prepend_to-Prepends env b chain added v at small)
              | inl out ↦
                  let nothing =
                    nil_of_length b.chains (ground (arith, out, get_elem?-lt b.chains 0)) in
                  elim (Option-cases (chain_new env (length added))) [
                    | inl denied ↦
                        rw (go, out, denied)
                          (record {
                            valid = v;
                            success = λ bad. cc;
                            failure = λ _. (
                              (
                                length added,
                                ap (λ xs. xs ++ bytes_of b)
                                    (sym (drop_all (length added) added (omega arith))),
                              ),
                              inr (inr (length added, omega arith, denied)),
                            );
                          })
                    | inr (chain, got) ↦
                        rw (go, out, got) (first-Prepends chain nothing got thawed small)
                  ]
            ]
      ]
