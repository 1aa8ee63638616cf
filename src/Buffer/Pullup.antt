-- ===== src/Buffer/Pullup.antt =====
-- evbuffer_pullup.
use libevent.Common.{
  ℕ, suc, ◌-◌, ◌^◌, ◌≤◌, ◌<◌, ◌≡◌, ◌⊎◌, refl, sym, ap, ◌∙◌, ◌++◌, ◌||◌, Bool, true, false, Option,
  none, some, List, [], ◌∷◌, arith, length, length-append, take, drop, Bool-cases, Option-cases,
  ◌==◌, inl, inr, ltb, leb,
}
use mathlib.Core.Path.{subst}
use native.Mathlib.Decide.{ℕ_discrete}
use libevent.Buffer.Defs.Chain.{Chain, Env, off, content, chain_new, minus_size}
use libevent.Buffer.Defs.State.{Evbuffer, expect}
use libevent.Buffer.Defs.Take.{gather, pull_into, pullup, evbuffer_pullup}
use libevent.Buffer.Chains.{AllChains, chain_new-IsNew}
use libevent.Buffer.Invariant.{IsBuffer, bytes_of, IsBuffer-same, SameBytes, expect-same}
use libevent.Buffer.Append.{new-IsChain}
use libevent.Buffer.Drain.{length-content}
use libevent.Buffer.Gather.{take-within}
use libevent.Buffer.PullInto.{Pulls, pull_into-Pulls}

gather-removed :
    (c : Chain) (cs : List Chain) (size : ℕ) → off c ≤ size → 0 < (gather (c ∷ cs) size).removed
unfolding gather
gather-removed c cs size h = ground arith

pulled-same :
    {env : Env} {b c : Evbuffer} {size : ℕ} {out : Evbuffer × Bool}
    → SameBytes b c
    → Pulls env c size out
    → Pulls env b size out
pulled-same {b} {size} s p = record {
  valid = p.valid;
  same = p.same ∙ ap content s.chains;
  freeze_start = p.freeze_start ∙ s.freeze_start;
  success = λ ok.
      let (c, rest, is, fits, pre) = p.success ok in
      (c, rest, is, fits, pre ∙ ap (λ cs. take size (content cs)) s.chains);
  failure = λ bad. elim (p.failure bad) [
    | inl z ↦ inl z
    | inr (inl big) ↦ inr (inl (omega (arith, s.total_len, big)))
    | inr (inr denied) ↦ inr (inr denied)
  ];
}

module _ (env : Env) (b : Evbuffer) (size : ℕ) (v : IsBuffer b) where
  kept-Pulls :
      (done : Bool)
      → (done ≡ true
          → (c : Chain) × (rest : List Chain) × (b.chains ≡ c ∷ rest)
            × (size ≤ off c)
            × (take size c.bytes ≡ take size (bytes_of b)))
      → (done ≡ false → (size ≡ 0) ⊎ ((b.total_len < size) ⊎ (chain_new env size ≡ none)))
      → Pulls env b size (b, done)
  kept-Pulls done yes_so why = record {
    valid = v;
    same = refl;
    freeze_start = refl;
    success = yes_so;
    failure = why;
  }

  module _ (c : Chain) (cs : List Chain) (e : b.chains ≡ c ∷ cs) (small : b.total_len < 2 ^ 63)
      (le : size ≤ b.total_len) (more : off c < size) where
    abbrev pulled : Evbuffer
    pulled = expect (ltb (minus_size size (off c)) (2 ^ 63)) b

    pulled_same : SameBytes b pulled
    pulled_same = expect-same b (ltb (minus_size size (off c)) (2 ^ 63)) (ground arith)

    bytes_are : bytes_of b ≡ content (c ∷ cs)
    bytes_are = ap content e

    settled_are : content (drop b.last_with_data cs) ≡ []
    settled_are = rw e at v.settled

    inside_one : b.last_with_data ≤ length cs
    inside_one = omega (arith, v.placed, ap (length {A = Chain}) e)

    sound_are : AllChains (c ∷ cs)
    sound_are = subst AllChains e v.sound

    in_place-Pulls :
        leb size (minus_size c.buffer_len c.misalign) ≡ true
        → Pulls env b size (pull_into pulled c 1 cs (size - off c))
    unfolding content
    in_place-Pulls room =
        let w = sound_are.0 in
        let p = pulled_same in
        let k : b.last_with_data ≡ suc pulled.last_with_data - 1 =
          omega (arith, p.last_with_data) in
        pulled-same p (
          pull_into-Pulls env pulled size c 1 cs (size - off c) (IsBuffer-same p v) sound_are.1
            (omega (arith, v.total, ap (length {A = ℕ}) bytes_are, length-content c cs))
            (ap content p.chains ∙ bytes_are) (omega arith)
            (λ xs long. record {
              inside = ground (arith, room, w.inside, w.small, length-append c.bytes xs, long);
              small = w.small;
              writable = w.writable;
            })
            (omega arith) (λ z. absurd (omega arith)) (omega (arith, p.last_with_data, inside_one))
            (subst (λ n. content (drop n cs) ≡ []) k settled_are))

    moved-Pulls :
        (tmp : Chain)
        → chain_new env size ≡ some tmp
        → Pulls env b size (pull_into pulled tmp 0 (c ∷ cs) size)
    moved-Pulls tmp got =
        let new = chain_new-IsNew env size tmp got in
        let none_yet : off tmp ≡ 0 = ap (length {A = ℕ}) new.empty in
        let p = pulled_same in
        let k : suc b.last_with_data ≡ suc pulled.last_with_data - 0 =
          omega (arith, p.last_with_data) in
        pulled-same p (
          pull_into-Pulls env pulled size tmp 0 (c ∷ cs) size (IsBuffer-same p v) sound_are
            (omega (arith, v.total, ap (length {A = ℕ}) bytes_are))
            (ap content p.chains ∙ bytes_are ∙ ap (λ xs. xs ++ content (c ∷ cs)) (sym new.empty))
            (omega (arith, none_yet))
            (λ xs long.
              new-IsChain tmp size (tmp.bytes ++ xs) new
                (omega (arith, length-append tmp.bytes xs, none_yet, long)))
            (omega arith) (λ z. gather-removed c cs size (omega arith))
            (omega (arith, p.last_with_data, inside_one))
            (subst (λ n. content (drop n (c ∷ cs)) ≡ []) k settled_are))

  pullup-Pulls :
      (cs : List Chain)
      → b.chains ≡ cs
      → b.total_len < 2 ^ 63
      → Pulls env b size (pullup env b size cs)
  unfolding pullup
  pullup-Pulls [] e small =
      let nothing : b.total_len ≡ 0 =
        v.total ∙ unfold content in ap (λ cs. length (content cs)) e in
      kept-Pulls false (λ bad. cc)
        (λ _. elim (ℕ_discrete size 0) [
          | yes z ↦ inl z
          | no some_more ↦ inr (inl (ground (arith, nothing)))
        ])
  pullup-Pulls (c ∷ cs) e small = elim (Bool-cases (size == 0 || ltb b.total_len size)) [
    | inl none_or_all ↦ simp none_or_all (
        kept-Pulls false (λ bad. cc)
          (λ _. elim (Bool-cases (size == 0)) [
            | inl z ↦ inl (ground (arith, z))
            | inr more ↦ inr (inl (ground (arith, more, none_or_all)))
          ]))
    | inr go ↦
        let le : size ≤ b.total_len = ground (arith, go) in
        elim (Bool-cases (leb size (off c))) [
          | inl here ↦
              let h : size ≤ off c = ground (arith, here) in
              simp (go, here)
                (kept-Pulls true
                  (λ _. (
                    c,
                    cs,
                    e,
                    h,
                    sym (take-within c cs size h) ∙ ap (λ xs. take size (content xs)) (sym e),
                  ))
                  (λ bad. cc))
          | inr far ↦
              let more : off c < size = ground (arith, far) in
              elim (Bool-cases (leb size (minus_size c.buffer_len c.misalign))) [
                | inl room ↦ simp (go, far, room) (in_place-Pulls c cs e small le more room)
                | inr full ↦
                    simp (go, far, full)
                      (elim (Option-cases (chain_new env size)) [
                        | inr (tmp, got) ↦ rw got (moved-Pulls c cs e small le more tmp got)
                        | inl denied ↦
                            let p = pulled_same c cs e small le more in
                            rw denied (
                              pulled-same p (record {
                                valid = IsBuffer-same p v;
                                same = refl;
                                freeze_start = refl;
                                success = λ bad. cc;
                                failure = λ _. inr (inr denied);
                              }))
                      ])
              ]
        ]
  ]

-- The number of bytes that evbuffer_pullup is to bring together.
abbrev pub pulled_size : Evbuffer → Option ℕ → ℕ
pulled_size b none = b.total_len
pulled_size b (some size) = size

-- evbuffer_pullup on a right buffer of less than 2^63 bytes: the buffer stays right and has the same
-- bytes and the same start, frozen or not; if it succeeds the first of them, as many as asked for, are the first chain's first, and it
-- fails only if none or more than there are were asked for, or a chain cannot be had.
pub evbuffer_pullup-Pulls :
    (env : Env) (b : Evbuffer) (size : Option ℕ)
    → IsBuffer b
    → b.total_len < 2 ^ 63
    → Pulls env b (pulled_size b size) (evbuffer_pullup env b size)
unfolding evbuffer_pullup
evbuffer_pullup-Pulls env b none v small = pullup-Pulls env b b.total_len v b.chains refl small
evbuffer_pullup-Pulls env b (some size) v small = pullup-Pulls env b size v b.chains refl small
