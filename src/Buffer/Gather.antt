-- ===== src/Buffer/Gather.antt =====
-- What evbuffer_pullup takes from the chains, and where last_with_data points afterwards.
use libevent.Common.{
  ℕ, zero, suc, ◌+◌, ◌-◌, ◌≤◌, ◌<◌, ◌≡◌, refl, sym, ap, ◌∙◌, ◌++◌, append-nil, ◌&&◌, ◌||◌, List, [],
  ◌∷◌, arith, length, take, drop, nil_of_length, Bool-cases, ◌==◌, inl, inr, ltb, leb,
  if◌then◌else◌, length-drop, take_all, take-append, drop-drop,
}
use mathlib.Core.Path.{subst}
use libevent.Buffer.Defs.Chain.{Chain, off, content}
use libevent.Buffer.Defs.Take.{Gathered, gather, begins, pulled_last}
use libevent.Buffer.Chains.{AllChains}
use libevent.Buffer.Drain.{without_front-IsChain, content-without_front, length-content, drop-past}

-- What evbuffer_pullup takes from chains with enough bytes, and what it leaves of them.
pub record Gathers (cs : List Chain) (size : ℕ) (g : Gathered) : Type 0 where
  pub taken : g.taken ≡ take size (content cs)
  pub left : content g.left ≡ drop size (content cs)
  pub sound : AllChains g.left
  pub count : length g.left + g.removed ≡ length cs
  pub tail : (j : ℕ) → content (drop (suc j) g.left) ≡ content (drop (suc (j + g.removed)) cs)
  pub head : length (content g.left) ≤ length (content (drop g.removed cs))

pub take-past :
    (c : Chain) (cs : List Chain) (n : ℕ)
    → off c ≤ n
    → take n (content (c ∷ cs)) ≡ c.bytes ++ take (n - off c) (content cs)
unfolding content
take-past c cs n h = rw (take-append n c.bytes (content cs), take_all n c.bytes h) refl

pub take-within :
    (c : Chain) (cs : List Chain) (n : ℕ) → n ≤ off c → take n (content (c ∷ cs)) ≡ take n c.bytes
unfolding content
take-within c cs n h =
    let z : n - off c ≡ 0 = omega arith in
    take-append n c.bytes (content cs) ∙ rw z (append-nil (take n c.bytes))

pub gather-Gathers :
    (cs : List Chain) (size : ℕ)
    → AllChains cs
    → size ≤ length (content cs)
    → Gathers cs size (gather cs size)
unfolding gather
gather-Gathers [] size v h =
    unfold content in
    let z : size ≡ 0 = omega arith in
    rw z (record {
      taken = refl;
      left = refl;
      sound = tt;
      count = omega arith;
      tail = λ j. refl;
      head = omega arith;
    })
gather-Gathers (c ∷ cs) size v h = elim (Bool-cases (leb (off c) size)) [
  | inl past ↦
      let le : off c ≤ size = ground (arith, past) in
      let g = gather cs (size - off c) in
      let r = gather-Gathers cs (size - off c) v.1 (omega (arith, length-content c cs)) in
      let next : g.removed + 1 ≡ suc g.removed = omega arith in
      rw past (record {
        taken = ap (λ xs. c.bytes ++ xs) r.taken ∙ sym (take-past c cs size le);
        left = r.left ∙ sym (drop-past c cs size le);
        sound = r.sound;
        count = omega (arith, r.count);
        tail = λ j.
            let e : suc (j + (g.removed + 1)) ≡ suc (suc (j + g.removed)) = omega arith in
            rw e (r.tail j);
        head = rw next r.head;
      })
  | inr within ↦
      let le : size ≤ off c = ground (arith, within) in
      rw within (record {
        taken = sym (take-within c cs size le);
        left = content-without_front c cs size le;
        sound = (without_front-IsChain c size v.0 le, v.1);
        count = omega arith;
        tail = λ j. let e : j + 0 ≡ j = omega arith in rw e refl;
        head = omega (
          arith,
          ap (length {A = ℕ}) (content-without_front c cs size le),
          length-drop size (content (c ∷ cs)),
        );
      })
]

content-drop-nil : (cs : List Chain) (m : ℕ) → content cs ≡ [] → content (drop m cs) ≡ []
content-drop-nil cs zero h = h
content-drop-nil [] (suc m) h = h
content-drop-nil (c ∷ cs) (suc m) h =
    content-drop-nil cs m
      (nil_of_length (content cs) (omega (arith, length-content c cs, ap (length {A = ℕ}) h)))

drop_beyond :
    (cs : List Chain) (t k : ℕ) → t ≤ k → content (drop t cs) ≡ [] → content (drop k cs) ≡ []
drop_beyond cs t k h e =
    let sum : t + (k - t) ≡ k = omega arith in
    subst (λ n. content (drop n cs) ≡ []) sum
      (subst (λ xs. content xs ≡ []) (drop-drop (k - t) t cs)
        (content-drop-nil (drop t cs) (k - t) e))

after_first :
    (left : List Chain)
    → content (drop 1 left) ≡ []
    → ((if begins left then 1 else 0) ≤ length left)
      × (content (drop (if begins left then 1 else 0) left) ≡ [])
unfolding begins
after_first [] h = (omega arith, h)
after_first (c ∷ cs) h = elim (Bool-cases (ltb 0 (off c))) [
  | inl some_there ↦ rw some_there (omega arith, h)
  | inr empty ↦ rw empty (
    omega arith,
    nil_of_length (content (c ∷ cs))
        (ground (arith, length-content c cs, ap (length {A = ℕ}) h, empty)),
  )
]

-- Where last_with_data points once chains have gone into the first one.
pub pulled_last-settled :
    (cs : List Chain) (size last start : ℕ) (g : Gathered)
    → Gathers cs size g
    → start ≤ 1
    → (start ≡ 0 → 0 < g.removed)
    → last < start + length cs
    → content (drop (suc last - start) cs) ≡ []
    → (pulled_last last start g.removed g.left ≤ length g.left)
      × (content (drop (pulled_last last start g.removed g.left) g.left) ≡ [])
unfolding pulled_last
pulled_last-settled cs size last start g r one some_gone p s =
    elim (Bool-cases (last == 0 || ltb last (start + g.removed))) [
      | inl first ↦
          let past : suc last - start ≤ g.removed = ground (arith, first, one, some_gone) in
          let behind = drop_beyond cs (suc last - start) g.removed past s in
          let left : content g.left ≡ [] =
            nil_of_length (content g.left) (omega (arith, r.head, ap (length {A = ℕ}) behind)) in
          rw first (omega arith, left)
      | inr later ↦ elim (Bool-cases (last == start + g.removed && ltb 0 g.removed)) [
        | inl next ↦
            let e : suc last - start ≡ suc g.removed = ground (arith, next) in
            let e' : suc last - start ≡ suc (0 + g.removed) = omega (arith, e) in
            let behind : content (drop 1 g.left) ≡ [] =
              r.tail 0 ∙ subst (λ k. content (drop k cs) ≡ []) e' s in
            rw (later, next) (after_first g.left behind)
        | inr far ↦
            let k : ℕ = last - (start + g.removed) in
            let l : last + 1 - (start + g.removed) ≡ suc k = ground (arith, later, far) in
            let e : suc last - start ≡ suc (k + g.removed) = ground (arith, later, far) in
            rw (later, far, l)
              (
                ground (arith, r.count, p, later, far),
                r.tail k ∙ subst (λ n. content (drop n cs) ≡ []) e s,
              )
      ]
    ]
