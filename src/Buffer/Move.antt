-- ===== src/Buffer/Move.antt =====
-- evbuffer_add_buffer and evbuffer_prepend_buffer.
use libevent.Common.{
  ℕ, suc, ◌+◌, ◌^◌, ◌<◌, ◌≡◌, refl, sym, ap, ◌∙◌, ◌++◌, append-nil, ◌&&◌, ◌||◌, not, Bool, true,
  false, List, [], arith, length, length-append, drop, drop_behind, get_elem?, get_elem?-lt,
  is_some, nil_of_length, Bool-cases, ◌==◌, inl, inr, if◌then◌else◌,
}
use mathlib.Core.Path.{subst}
use libevent.Buffer.Defs.Chain.{Chain, content, trimmed, plus_size}
use libevent.Buffer.Defs.State.{Evbuffer}
use libevent.Buffer.Defs.Move.{
  Moved, zero_chain, copy_chain, append_chain, prepend_chains, moved, evbuffer_add_buffer,
  evbuffer_prepend_buffer,
}
use libevent.Buffer.Chains.{AllChains-append, AllChains-trimmed, trimmed-Trimmed, content-append}
use libevent.Buffer.Invariant.{
  IsBuffer, bytes_of, IsBuffer-same, invoke_callbacks-same, grown-IsBuffer, added-same,
  deleted-same,
}

-- Chains of one buffer behind others: data ends where the last list says.
behind-settled :
    (xs ys : List Chain) (i : ℕ)
    → content (drop (suc i) ys) ≡ []
    → content (drop (suc (length xs + i)) (xs ++ ys)) ≡ []
behind-settled xs ys i h =
    let e : suc (length xs + i) ≡ length xs + suc i = omega arith in
    rw (e, drop_behind xs ys (suc i)) h

-- A buffer that holds the bytes of two others.
record Joined (xs : List ℕ) (out : Evbuffer) : Type 0 where
  pub valid : IsBuffer out
  pub same : bytes_of out ≡ xs

module _ (b c : Evbuffer) (v : IsBuffer b) (w : IsBuffer c)
    (small : b.total_len + c.total_len < 2 ^ 64) where
  zero_chain-Joined : Joined [] (zero_chain c)
  unfolding zero_chain content
  zero_chain-Joined = record {
    valid = record {
      total = refl;
      small = omega arith;
      placed = omega arith;
      settled = refl;
      sound = tt;
      fine = w.fine;
    };
    same = refl;
  }

  copy_chain-Joined : Joined (bytes_of c) (copy_chain b c)
  unfolding copy_chain
  copy_chain-Joined = record {
    valid = record {
      total = w.total;
      small = w.small;
      placed = w.placed;
      settled = w.settled;
      sound = w.sound;
      fine = v.fine;
    };
    same = refl;
  }

  module _ (some_there : 0 < b.total_len) (more : 0 < c.total_len) where
    has_chains : (d : Evbuffer) → IsBuffer d → 0 < d.total_len → d.last_with_data < length d.chains
    has_chains d u h = elim (Bool-cases (length d.chains == 0)) [
      | inl z ↦
          let nothing = nil_of_length d.chains (ground (arith, z)) in
          let e : length (bytes_of d) ≡ 0 =
            ap (λ cs. length (content cs)) nothing ∙ unfold content in refl in
          absurd (omega (arith, u.total, e))
      | inr one ↦ ground (arith, one, u.placed)
    ]

    append_chain-Joined : Joined (bytes_of b ++ bytes_of c) (append_chain b c)
    unfolding append_chain
    append_chain-Joined =
        let kept = trimmed b.last_with_data b.chains in
        let here = has_chains b v some_there in
        let t = trimmed-Trimmed b.last_with_data b.chains here v.settled in
        let same : content (kept ++ c.chains) ≡ bytes_of b ++ bytes_of c =
          content-append kept c.chains ∙ ap (λ xs. xs ++ bytes_of c) t.same in
        record {
          valid =
              grown-IsBuffer b (append_chain b c) (bytes_of c) v (omega (arith, w.total))
                (ap (plus_size b.total_len) w.total)
                (ap (length {A = ℕ}) same ∙ length-append (bytes_of b) (bytes_of c))
                (omega (arith, length-append kept c.chains, has_chains c w more))
                (behind-settled kept c.chains c.last_with_data w.settled)
                (AllChains-append kept c.chains
                  (AllChains-trimmed b.last_with_data b.chains v.sound) w.sound)
                (ground (arith, v.fine, t.only_empty));
          same = same;
        }

    prepend_chains-Joined : Joined (bytes_of c ++ bytes_of b) (prepend_chains b c)
    unfolding prepend_chains
    prepend_chains-Joined =
        let here = has_chains b v some_there in
        let at : is_some (get_elem? b.chains b.last_with_data) ≡ true =
          ground (arith, get_elem?-lt b.chains b.last_with_data) in
        let same : content (c.chains ++ b.chains) ≡ bytes_of c ++ bytes_of b =
          content-append c.chains b.chains in
        let last : (prepend_chains b c).last_with_data ≡ length c.chains + b.last_with_data =
          ground (arith, at) in
        record {
          valid =
              grown-IsBuffer b (prepend_chains b c) (bytes_of c) v (omega (arith, w.total))
                (ap (plus_size b.total_len) w.total)
                (omega (arith, ap (length {A = ℕ}) same, length-append (bytes_of c) (bytes_of b)))
                (omega (arith, last, length-append c.chains b.chains))
                (subst (λ n. content (drop (suc n) (c.chains ++ b.chains)) ≡ []) (sym last)
                  (behind-settled c.chains b.chains b.last_with_data v.settled))
                (AllChains-append c.chains b.chains w.sound v.sound) v.fine;
          same = same;
        }

-- What moving one buffer into another promises, where `joined` are the bytes of both.
pub record Moves (b c : Evbuffer) (joined : List ℕ) (refused : Bool) (m : Moved) : Type 0 where
  pub valid_out : IsBuffer m.out
  pub valid_inp : IsBuffer m.inp
  pub ok : m.ok ≡ not refused
  pub out : bytes_of m.out ≡ (if refused then bytes_of b else joined)
  pub inp : bytes_of m.inp ≡ (if refused then bytes_of c else [])

moved-Moves :
    (b c out inp : Evbuffer) (joined : List ℕ) (n : ℕ)
    → Joined joined out
    → Joined [] inp
    → Moves b c joined false (moved out inp n)
unfolding moved
moved-Moves b c out inp joined n o i =
    let told_out =
      invoke_callbacks-same (record out { n_add_for_cb = plus_size out.n_add_for_cb n }) in
    let told_inp =
      invoke_callbacks-same (record inp { n_del_for_cb = plus_size inp.n_del_for_cb n }) in
    record {
      valid_out = IsBuffer-same told_out (IsBuffer-same (added-same out _) o.valid);
      valid_inp = IsBuffer-same told_inp (IsBuffer-same (deleted-same inp _) i.valid);
      ok = refl;
      out = ap content told_out.chains ∙ o.same;
      inp = ap content told_inp.chains ∙ i.same;
    }

module _ (b c : Evbuffer) (v : IsBuffer b) (w : IsBuffer c)
    (small : b.total_len + c.total_len < 2 ^ 64) where
  abbrev pub refused_by : Bool → Bool
  refused_by frozen = not (c.total_len == 0) && (frozen || c.freeze_start)

  nothing_in : (d : Evbuffer) → IsBuffer d → d.total_len ≡ 0 → bytes_of d ≡ []
  nothing_in d u z = nil_of_length (bytes_of d) (omega (arith, z, u.total))

  -- The cases that both functions have.
  cases-Moves :
      (joined : List ℕ) (frozen : Bool) (first both : Moved)
      → (bytes_of c ≡ [] → joined ≡ bytes_of b)
      → (bytes_of b ≡ [] → Moves b c joined false first)
      → (0 < b.total_len → 0 < c.total_len → Moves b c joined false both)
      → Moves b c joined (refused_by frozen) (
          if c.total_len == 0 || false
          then record { out = b; inp = c; ok = true }
          else if frozen || c.freeze_start
          then record { out = b; inp = c; ok = false }
          else if b.total_len == 0
          then first
          else both)
  cases-Moves joined frozen first both alone f g = elim (Bool-cases (c.total_len == 0)) [
    | inl z ↦
        let none_there = nothing_in c w (ground (arith, z)) in
        simp z (record {
          valid_out = v;
          valid_inp = w;
          ok = refl;
          out = sym (alone none_there);
          inp = none_there;
        })
    | inr more ↦ elim (Bool-cases (frozen || c.freeze_start)) [
      | inl stop ↦
          simp (more, stop)
            (record { valid_out = v; valid_inp = w; ok = refl; out = refl; inp = refl })
      | inr go ↦ elim (Bool-cases (b.total_len == 0)) [
        | inl z ↦ simp (more, go, z) (f (nothing_in b v (ground (arith, z))))
        | inr some_there ↦
            simp (more, go, some_there) (g (ground (arith, some_there)) (ground (arith, more)))
      ]
    ]
  ]

  -- evbuffer_add_buffer on two right buffers with less than 2^64 bytes together: they stay right; it fails only where there are bytes
  -- to move and the end of the one or the start of the other is frozen, and then both have the
  -- bytes that they had; otherwise the bytes of the second come behind those of the first, and the
  -- second is empty.
  pub evbuffer_add_buffer-Moves :
      Moves b c (bytes_of b ++ bytes_of c) (refused_by b.freeze_end) (evbuffer_add_buffer false b c)
  unfolding evbuffer_add_buffer
  evbuffer_add_buffer-Moves =
      let empty = zero_chain-Joined b c v w small in
      cases-Moves (bytes_of b ++ bytes_of c) b.freeze_end
        (moved (copy_chain b c) (zero_chain c) c.total_len)
        (moved (append_chain b c) (zero_chain c) c.total_len)
        (λ none_there. ap (λ xs. bytes_of b ++ xs) none_there ∙ append-nil (bytes_of b))
        (λ none_there.
          let o = copy_chain-Joined b c v w small in
          let whole = o.same ∙ ap (λ xs. xs ++ bytes_of c) (sym none_there) in
          moved-Moves b c (copy_chain b c) (zero_chain c) _ c.total_len
            (record { valid = o.valid; same = whole }) empty)
        (λ some_there more.
          moved-Moves b c (append_chain b c) (zero_chain c) _ c.total_len
            (append_chain-Joined b c v w small some_there more) empty)

  -- evbuffer_prepend_buffer on two right buffers with less than 2^64 bytes together: they stay right; it fails only where there are
  -- bytes to move and the start of one of them is frozen, and then both have the bytes that they
  -- had; otherwise the bytes of the second come before those of the first, and the second is empty.
  pub evbuffer_prepend_buffer-Moves :
      Moves b c
        (bytes_of c ++ bytes_of b)
        (refused_by b.freeze_start)
        (evbuffer_prepend_buffer false b c)
  unfolding evbuffer_prepend_buffer
  evbuffer_prepend_buffer-Moves =
      let empty = zero_chain-Joined b c v w small in
      cases-Moves (bytes_of c ++ bytes_of b) b.freeze_start
        (moved (copy_chain b c) (zero_chain c) c.total_len)
        (moved (prepend_chains b c) (zero_chain c) c.total_len)
        (λ none_there. ap (λ xs. xs ++ bytes_of b) none_there)
        (λ none_there.
          let o = copy_chain-Joined b c v w small in
          let whole =
            o.same ∙ sym (append-nil (bytes_of c)) ∙ ap (λ xs. bytes_of c ++ xs) (sym none_there) in
          moved-Moves b c (copy_chain b c) (zero_chain c) _ c.total_len
            (record { valid = o.valid; same = whole }) empty)
        (λ some_there more.
          moved-Moves b c (prepend_chains b c) (zero_chain c) _ c.total_len
            (prepend_chains-Joined b c v w small some_there more) empty)
