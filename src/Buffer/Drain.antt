-- ===== src/Buffer/Drain.antt =====
-- evbuffer_drain.
use libevent.Common.{
  ℕ, zero, suc, ◌+◌, ◌-◌, ◌%◌, ◌^◌, ◌≤◌, ◌<◌, ◌≡◌, refl, sym, ap, ◌∙◌, ◌||◌, not, Bool, true, false,
  List, [], ◌∷◌, arith, length, length-append, drop, nil_of_length, Bool-cases, ◌==◌, inl, inr, ltb,
  leb, if◌then◌else◌, length-drop, drop_all, drop-nil, drop-append,
}
use libevent.Buffer.Defs.Chain.{Chain, off, content}
use libevent.Buffer.Defs.State.{Evbuffer, invoke_callbacks}
use libevent.Buffer.Defs.Take.{
  Drained, drain_chains, without_front, drain_some, drained_all, evbuffer_drain,
}
use libevent.Buffer.Chains.{IsChain, AllChains}
use libevent.Buffer.Invariant.{IsBuffer, bytes_of, IsBuffer-same, SameBytes, invoke_callbacks-same}

-- A chain without its first bytes is still a chain.
pub without_front-IsChain :
    (c : Chain) (n : ℕ) → IsChain c → n ≤ off c → IsChain (without_front c n)
unfolding without_front
without_front-IsChain c n w h = record {
  inside = omega (arith, w.inside, length-drop n c.bytes);
  small = w.small;
  writable = w.writable;
}

pub content-without_front :
    (c : Chain) (cs : List Chain) (n : ℕ)
    → n ≤ off c
    → content (without_front c n ∷ cs) ≡ drop n (content (c ∷ cs))
unfolding content without_front
content-without_front c cs n h =
    let z : n - off c ≡ 0 = omega arith in rw (drop-append n c.bytes (content cs), z) refl

-- What the loop of evbuffer_drain leaves of chains with more bytes than are to go.
pub record Draining (cs : List Chain) (remaining last : ℕ) (d : Drained) (c : Chain)
    (rest : List Chain) : Type 0 where
  pub left : d.left ≡ c ∷ rest
  pub within : d.remaining < off c
  pub same : drop d.remaining (content (c ∷ rest)) ≡ drop remaining (content cs)
  pub first_sound : IsChain c
  pub rest_sound : AllChains rest
  pub placed : d.last ≤ length rest
  pub settled : content (drop d.last rest) ≡ []

pub drop-past :
    (c : Chain) (cs : List Chain) (n : ℕ)
    → off c ≤ n
    → drop n (content (c ∷ cs)) ≡ drop (n - off c) (content cs)
unfolding content
drop-past c cs n h = rw (drop-append n c.bytes (content cs), drop_all n c.bytes h) refl

pub length-content :
    (c : Chain) (cs : List Chain) → length (content (c ∷ cs)) ≡ off c + length (content cs)
unfolding content
length-content c cs = length-append c.bytes (content cs)

drain_chains-Draining :
    (cs : List Chain) (remaining last : ℕ)
    → AllChains cs
    → remaining < length (content cs)
    → last ≤ length cs - 1
    → content (drop (suc last) cs) ≡ []
    → (c : Chain) × (rest : List Chain) × Draining cs remaining last
        (drain_chains cs remaining last)
        c
        rest
unfolding drain_chains
drain_chains-Draining [] remaining last v h p s = absurd (unfold content in omega arith)
drain_chains-Draining (c ∷ cs) remaining zero v h p s =
    let z : length (content cs) ≡ 0 = ap (length {A = ℕ}) s in
    let stop : leb (off c) remaining ≡ false = ground (arith, length-content c cs, z) in
    rw stop (
      c,
      cs,
      record {
        left = refl;
        within = ground (arith, stop);
        same = refl;
        first_sound = v.0;
        rest_sound = v.1;
        placed = omega arith;
        settled = s;
      },
    )
drain_chains-Draining (c ∷ cs) remaining (suc last) v h p s =
    elim (Bool-cases (leb (off c) remaining)) [
      | inr stop ↦ rw stop (
        c,
        cs,
        record {
          left = refl;
          within = ground (arith, stop);
          same = refl;
          first_sound = v.0;
          rest_sound = v.1;
          placed = omega arith;
          settled = s;
        },
      )
      | inl go ↦
          let le : off c ≤ remaining = ground (arith, go) in
          let back : suc last - 1 ≡ last = omega arith in
          let (d, rest, r) =
            drain_chains-Draining cs (remaining - off c) last v.1
              (omega (arith, length-content c cs)) (omega arith) s in
          rw (go, back)
            (
              d,
              rest,
              record {
                left = r.left;
                within = r.within;
                same = r.same ∙ sym (drop-past c cs remaining le);
                first_sound = r.first_sound;
                rest_sound = r.rest_sound;
                placed = r.placed;
                settled = r.settled;
              },
            )
    ]

-- A buffer without its first `len` bytes.
pub record Shorter (b : Evbuffer) (len : ℕ) (out : Evbuffer) : Type 0 where
  pub valid : IsBuffer out
  pub same : bytes_of out ≡ drop len (bytes_of b)

Shorter-same :
    {b c out : Evbuffer} {len : ℕ} → SameBytes b c → Shorter out len b → Shorter out len c
Shorter-same s l = record { valid = IsBuffer-same s l.valid; same = ap content s.chains ∙ l.same }

module _ (b : Evbuffer) (len : ℕ) (v : IsBuffer b) where
  module _ (less : len < b.total_len) (c : Chain) (rest : List Chain)
      (r : Draining b.chains len b.last_with_data
        (drain_chains b.chains len b.last_with_data)
        c
        rest) where
    left-Shorter :
        (out : Evbuffer)
        → out.chains ≡ without_front c (drain_chains b.chains len b.last_with_data).remaining ∷ rest
        → out.last_with_data ≡ (drain_chains b.chains len b.last_with_data).last
        → out.total_len ≡ (b.total_len + 2 ^ 64 - len) % 2 ^ 64
        → out.fine ≡ true
        → Shorter b len out
    left-Shorter out chains last total fine =
        let d = drain_chains b.chains len b.last_with_data in
        let same : bytes_of out ≡ drop len (bytes_of b) =
          ap content chains
          ∙ content-without_front c rest d.remaining (omega (arith, r.within))
          ∙ r.same in
        record {
          valid = record {
            total = omega (
              arith,
              total,
              v.total,
              v.small,
              ap (length {A = ℕ}) same,
              length-drop len (bytes_of b),
            );
            small = omega (arith, total);
            placed = omega (arith, last, r.placed, ap (length {A = Chain}) chains);
            settled = rw (last, chains) r.settled;
            sound = rw chains (
              without_front-IsChain c d.remaining r.first_sound (omega (arith, r.within)),
              r.rest_sound,
            );
            fine = fine;
          };
          same = same;
        }

    some-Shorter : Shorter b len (drain_some b len)
    unfolding drain_some
    some-Shorter =
        let within : ltb (drain_chains b.chains len b.last_with_data).remaining (off c) ≡ true =
          ground (arith, r.within) in
        left-Shorter (drain_some b len) (rw (r.left, drain_some) refl)
          (rw (r.left, drain_some) refl) (rw (r.left, drain_some) refl)
          (rw (r.left, drain_some, v.fine, within) refl)

  drain_some-Shorter : len < b.total_len → Shorter b len (drain_some b len)
  drain_some-Shorter less =
      let (c, rest, r) =
        drain_chains-Draining b.chains len b.last_with_data v.sound (omega (arith, v.total))
          v.placed v.settled in
      some-Shorter less c rest r

  drain_all-Shorter :
      (out : Evbuffer)
      → b.total_len ≤ len
      → out.chains ≡ []
      → out.last_with_data ≡ 0
      → out.total_len ≡ 0
      → out.fine ≡ true
      → Shorter b len out
  unfolding content
  drain_all-Shorter out all chains last total fine =
      let gone : bytes_of out ≡ [] = ap content chains in
      record {
        valid = record {
          total = omega (arith, total, ap (length {A = ℕ}) gone);
          small = omega (arith, total);
          placed = omega (arith, last);
          settled = rw (last, chains) refl;
          sound = rw chains tt;
          fine = fine;
        };
        same = gone ∙ sym (drop_all len (bytes_of b) (omega (arith, v.total)));
      }

  gone-Shorter : b.total_len ≤ len → Shorter b len (invoke_callbacks (drained_all b))
  unfolding drained_all
  gone-Shorter all =
      Shorter-same (invoke_callbacks-same (drained_all b))
        (drain_all-Shorter (drained_all b) all refl refl refl v.fine)

  nothing-Shorter : b.total_len ≡ 0 → Shorter b len b
  nothing-Shorter z =
      let none_there = nil_of_length (bytes_of b) (omega (arith, z, v.total)) in
      record { valid = v; same = none_there ∙ sym (ap (drop len) none_there ∙ drop-nil len) }

-- What evbuffer_drain promises.
pub record Drains (b : Evbuffer) (len : ℕ) (out : Evbuffer × Bool) : Type 0 where
  pub valid : IsBuffer out.0
  pub success : out.1 ≡ (b.total_len == 0 || not b.freeze_start)
  pub same : bytes_of out.0 ≡ (if out.1 then drop len (bytes_of b) else bytes_of b)

-- evbuffer_drain on a right buffer: it fails only where there are bytes and their start is frozen,
-- and then they are as before; otherwise the first `len` bytes go, or all where there are fewer.
-- The buffer stays right.
pub evbuffer_drain-Drains :
    (b : Evbuffer) (len : ℕ) → IsBuffer b → Drains b len (evbuffer_drain b len)
unfolding evbuffer_drain
evbuffer_drain-Drains b len v = elim (Bool-cases (b.total_len == 0)) [
  | inl z ↦
      let l = nothing-Shorter b len v (ground (arith, z)) in
      rw z (record { valid = v; success = ground (arith, z); same = l.same })
  | inr some_there ↦ elim (Bool-cases b.freeze_start) [
    | inl frozen ↦
        simp (some_there, frozen)
          (record { valid = v; success = ground (arith, some_there, frozen); same = refl })
    | inr thawed ↦ elim (Bool-cases (leb b.total_len len)) [
      | inl all ↦
          let l = gone-Shorter b len v (ground (arith, all)) in
          simp (some_there, thawed, all)
            (record {
              valid = l.valid;
              success = ground (arith, some_there, thawed);
              same = l.same;
            })
      | inr part ↦
          let l = drain_some-Shorter b len v (ground (arith, part)) in
          let s = Shorter-same (invoke_callbacks-same (drain_some b len)) l in
          simp (some_there, thawed, part)
            (record {
              valid = s.valid;
              success = ground (arith, some_there, thawed);
              same = s.same;
            })
    ]
  ]
]

drain_some-freeze :
    (b : Evbuffer) (len : ℕ) (left : List Chain)
    → (drain_chains b.chains len b.last_with_data).left ≡ left
    → (drain_some b len).freeze_start ≡ b.freeze_start
unfolding drain_some
drain_some-freeze b len [] e = rw (e, drain_some) refl
drain_some-freeze b len (c ∷ cs) e = rw (e, drain_some) refl

-- Draining does not change whether the start is frozen.
pub evbuffer_drain-freeze :
    (b : Evbuffer) (len : ℕ) → (evbuffer_drain b len).0.freeze_start ≡ b.freeze_start
unfolding evbuffer_drain drained_all
evbuffer_drain-freeze b len = ground (
  arith,
  (invoke_callbacks-same (drained_all b)).freeze_start,
  (invoke_callbacks-same (drain_some b len)).freeze_start,
  drain_some-freeze b len (drain_chains b.chains len b.last_with_data).left refl,
)
