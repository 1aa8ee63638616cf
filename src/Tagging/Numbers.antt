-- ===== src/Tagging/Numbers.antt =====
-- Reading an integer from a buffer.
use libevent.Common.{
  ℕ, zero, suc, ◌+◌, ◌-◌, ◌*◌, ◌/◌, ◌%◌, ◌^◌, ◌<◌, ◌≤◌, ◌≡◌, ◌⊎◌, inl, inr, refl, sym, ap, ◌∙◌,
  ◌++◌, ◌||◌, Bool, true, false, Option, none, some, List, [], ◌∷◌, ◌==◌, ltb, leb, if◌then◌else◌,
  length, take, drop, arith, Bool-cases, nil_of_length, drop_front,
}
use mathlib.Core.Path.{subst}
use libevent.Buffer.Defs.Chain.{Env, content}
use libevent.Buffer.Defs.State.{Evbuffer, expect, evbuffer_get_length}
use libevent.Buffer.Defs.Take.{evbuffer_drain, evbuffer_pullup}
use libevent.Buffer.Invariant.{IsBuffer, bytes_of, IsBuffer-same, expect-same}
use libevent.Buffer.PullInto.{Pulls}
use libevent.Buffer.Pullup.{evbuffer_pullup-Pulls}
use libevent.Buffer.Drain.{evbuffer_drain-Drains, evbuffer_drain-freeze}
use libevent.Tagging.Codec.{at, nibble, read_nibbles, decode_int_internal, decode_int, encode_int}
use libevent.Tagging.Ints.{decode_int-encode_int}
use libevent.Tagging.Calls.{first_bytes, decode_int_rest, decode_int_from, evtag_decode}
use libevent.Tagging.Reading.{Reads, Denied, pulled_bytes}

at-take_lt : (xs : List ℕ) (n i : ℕ) → i < n → at (take n xs) i ≡ at xs i
at-take_lt xs zero i h = absurd (omega arith)
at-take_lt [] (suc n) i h = refl
at-take_lt (x ∷ xs) (suc n) zero h = refl
at-take_lt (x ∷ xs) (suc n) (suc i) h = at-take_lt xs n i (omega arith)

-- Reading nibbles looks no further than they go.
read_nibbles-agree :
    (xs ys : List ℕ) (n number : ℕ)
    → ((i : ℕ) → i ≤ n / 2 → at xs i ≡ at ys i)
    → read_nibbles xs n number ≡ read_nibbles ys n number
unfolding read_nibbles nibble
read_nibbles-agree xs ys zero number h = refl
read_nibbles-agree xs ys (suc n) number h =
    let e : nibble xs (suc n) ≡ nibble ys (suc n) = rw (h (suc n / 2) (omega arith)) refl in
    ap (λ k. read_nibbles xs n (number * 16 + k)) e
    ∙ read_nibbles-agree xs ys n _ (λ i p. h i (omega arith))

-- The bytes that the spec sees in the nibbles that are read.
read_pulled :
    (xs ys : List ℕ) (n : ℕ)
    → take (n / 2 + 1) xs ≡ take (n / 2 + 1) ys
    → read_nibbles (take (n / 2 + 1) xs) n 0 ≡ read_nibbles ys n 0
read_pulled xs ys n e =
    ap (λ zs. read_nibbles zs n 0) e
    ∙ read_nibbles-agree (take (n / 2 + 1) ys) ys n 0
        (λ i p. at-take_lt ys (n / 2 + 1) i (omega arith))

-- Bringing bytes together fails only for want of memory, where there are so many.
pulled-Denied :
    (env : Env) (b : Evbuffer) (size : ℕ) (out : Evbuffer × Bool)
    → Pulls env b size out
    → 0 < size
    → size ≤ b.total_len
    → size ≤ 16
    → out.1 ≡ false
    → Denied env
pulled-Denied env b size out p pos le few bad = elim (p.failure bad) [
  | inl z ↦ absurd (omega (arith, z))
  | inr (inl big) ↦ absurd (omega (arith, big))
  | inr (inr denied) ↦ (size, few, denied)
]

module _ (env : Env) (b : Evbuffer) (maxnibbles : ℕ) (spec : Option (ℕ × ℕ)) (c : Evbuffer)
    (v : IsBuffer c) (same : bytes_of c ≡ bytes_of b)
    (frozen : c.freeze_start ≡ b.freeze_start) where
  kept-Reads :
      (r : Option (ℕ × ℕ)) → (r ≡ spec) ⊎ ((r ≡ none) × Denied env) → Reads env b spec false (c, r)
  kept-Reads r why = record { valid = v; freeze_start = frozen; result = why; same = same }

  refused-Reads : Denied env → Reads env b spec false (expect true c, none)
  refused-Reads d =
      let s = expect-same c true refl in
      record {
        valid = IsBuffer-same s v;
        freeze_start = s.freeze_start ∙ frozen;
        result = inr (refl, d);
        same = ap content s.chains ∙ same;
      }

-- The second half, on a buffer `c` with the bytes of `b`.
module _ (env : Env) (b c : Evbuffer) (maxnibbles n : ℕ) (v : IsBuffer c)
    (small : c.total_len < 2 ^ 63) (same : bytes_of c ≡ bytes_of b)
    (frozen : c.freeze_start ≡ b.freeze_start) (limit : maxnibbles ≤ 16)
    (some_there : (length (bytes_of b) == 0) ≡ false)
    (is : at (bytes_of b) 0 / 16 % 16 + 1 ≡ n) where
  long : c.total_len ≡ length (bytes_of b)
  long = v.total ∙ ap (length {A = ℕ}) same

  spec_is : decode_int_internal maxnibbles (bytes_of b) ≡ (
      if ltb maxnibbles n || ltb c.total_len (n / 2 + 1)
      then none
      else some (read_nibbles (bytes_of b) n 0 % 16 ^ maxnibbles, n / 2 + 1))
  unfolding decode_int_internal
  spec_is = rw (some_there, is, long) refl

  rest-Reads :
      Reads env b
        (decode_int_internal maxnibbles (bytes_of b))
        false
        (decode_int_rest env c maxnibbles 0 n)
  unfolding decode_int_rest
  rest-Reads =
      let len : ℕ = n / 2 + 1 in
      let pulled = evbuffer_pullup env c (some (0 + len)) in
      let p = evbuffer_pullup-Pulls env c (some (0 + len)) v small in
      let z : c.total_len - 0 ≡ c.total_len = omega arith in
      let o : 0 + len ≡ len = omega arith in
      elim (Bool-cases (ltb maxnibbles n || ltb c.total_len len)) [
        | inl refused ↦
            let r : (ltb maxnibbles n || ltb (c.total_len - 0) len) ≡ true =
              ground (arith, refused) in
            simp r (
              kept-Reads env b maxnibbles _ c v same frozen none
                (inl (sym (spec_is ∙ rw refused refl))))
        | inr fine ↦
            let r : (ltb maxnibbles n || ltb (c.total_len - 0) len) ≡ false =
              ground (arith, fine) in
            elim (Bool-cases pulled.1) [
              | inr bad ↦
                  simp (r, bad)
                    (refused-Reads env b maxnibbles _ pulled.0 p.valid (p.same ∙ same)
                      (p.freeze_start ∙ frozen)
                      (pulled-Denied env c (0 + len) pulled p (omega arith) (ground (arith, fine))
                        (ground (arith, fine, limit)) bad))
              | inl ok ↦
                  let pre : take len (first_bytes pulled.0.chains) ≡ take len (bytes_of b) =
                    subst (λ k. take k (first_bytes pulled.0.chains) ≡ take k (bytes_of c)) o
                      (pulled_bytes env c (0 + len) pulled p ok)
                    ∙ ap (take len) same in
                  let back = read_pulled (first_bytes pulled.0.chains) (bytes_of b) n pre in
                  simp (r, ok)
                    (kept-Reads env b maxnibbles _ pulled.0 p.valid (p.same ∙ same)
                      (p.freeze_start ∙ frozen) _
                      (inl (
                        ap (λ k. some (k % 16 ^ maxnibbles, len)) back
                        ∙ sym (spec_is ∙ rw fine refl))))
            ]
      ]

at-take_one : (xs ys : List ℕ) → take 1 xs ≡ take 1 ys → at xs 0 ≡ at ys 0
at-take_one xs ys e =
    sym (at-take_lt xs 1 0 (omega arith)) ∙ ap (λ zs. at zs 0) e ∙ at-take_lt ys 1 0 (omega arith)

-- DECODE_INT_INTERNAL with at most 16 nibbles at the start of a right buffer: the buffer keeps its bytes, and the result is
-- what the codec reads from them, unless memory for a small chain is not to be had.
pub decode_int_from-Reads :
    (env : Env) (b : Evbuffer) (maxnibbles : ℕ)
    → IsBuffer b
    → b.total_len < 2 ^ 63
    → maxnibbles ≤ 16
    → Reads env b
        (decode_int_internal maxnibbles (bytes_of b))
        false
        (decode_int_from env b maxnibbles 0)
unfolding decode_int_from evbuffer_get_length
decode_int_from-Reads env b maxnibbles v small limit =
    let pulled = evbuffer_pullup env b (some (0 + 1)) in
    let p = evbuffer_pullup-Pulls env b (some (0 + 1)) v small in
    elim (Bool-cases (leb b.total_len 0)) [
      | inl empty ↦
          let nothing : bytes_of b ≡ [] =
            nil_of_length (bytes_of b) (ground (arith, empty, v.total)) in
          simp empty (
            kept-Reads env b maxnibbles _ b v refl refl none (
              inl (
                sym (
                  ap (decode_int_internal maxnibbles) nothing
                  ∙ unfold decode_int_internal in refl))))
      | inr more ↦ elim (Bool-cases pulled.1) [
        | inr bad ↦
            simp (more, bad)
              (refused-Reads env b maxnibbles _ pulled.0 p.valid p.same p.freeze_start (
                pulled-Denied env b (0 + 1) pulled p (omega arith) (ground (arith, more))
                  (omega arith) bad))
        | inl ok ↦
            let pre : take 1 (first_bytes pulled.0.chains) ≡ take 1 (bytes_of b) =
              pulled_bytes env b (0 + 1) pulled p ok in
            let is = at-take_one (first_bytes pulled.0.chains) (bytes_of b) pre in
            let total : pulled.0.total_len ≡ b.total_len =
              p.valid.total ∙ ap (length {A = ℕ}) p.same ∙ sym v.total in
            simp (more, ok)
              (rest-Reads env b pulled.0 maxnibbles _ p.valid (omega (arith, total, small)) p.same
                p.freeze_start limit (ground (arith, more, v.total))
                (ap (λ k. k / 16 % 16 + 1) (sym is)))
      ]
    ]

-- What a function that reads a value from the front of a buffer promises: the value, and the rest
-- stays, unless memory is not to be had.
pub record Yields {A : Type 0} (env : Env) (value : A) (rest : List ℕ) (out : Evbuffer × Option A)
    : Type 0 where
  pub valid : IsBuffer out.0
  pub thawed : out.0.freeze_start ≡ false
  pub result : ((out.1 ≡ some value) × (bytes_of out.0 ≡ rest)) ⊎ ((out.1 ≡ none) × Denied env)

-- evtag_decode_int on a right buffer that begins with the bytes of a 32-bit integer.
pub evtag_decode-Yields :
    (env : Env) (b : Evbuffer) (number : ℕ) (rest : List ℕ)
    → IsBuffer b
    → b.freeze_start ≡ false
    → b.total_len < 2 ^ 63
    → bytes_of b ≡ encode_int number ++ rest
    → number < 2 ^ 32
    → Yields env number rest (evtag_decode env b 8)
unfolding evtag_decode
evtag_decode-Yields env b number rest v thawed small is h =
    let r = decode_int_from-Reads env b 8 v small (omega arith) in
    let (back, few) = decode_int-encode_int number rest h in
    let spec : decode_int_internal 8 (bytes_of b) ≡ some (number, length (encode_int number)) =
      ap (decode_int_internal 8) is ∙ unfold decode_int in back in
    let read = decode_int_from env b 8 0 in
    elim r.result [
      | inl good ↦
          let e = good ∙ spec in
          let d = evbuffer_drain-Drains read.0 (length (encode_int number)) r.valid in
          let frozen = r.freeze_start ∙ thawed in
          let went : (evbuffer_drain read.0 (length (encode_int number))).1 ≡ true =
            ground (arith, d.success, frozen) in
          rw (e, evtag_decode)
            (record {
              valid = d.valid;
              thawed = evbuffer_drain-freeze read.0 (length (encode_int number)) ∙ frozen;
              result = inl (
                refl,
                d.same
                    ∙ rw went (
                        ap (drop (length (encode_int number))) (r.same ∙ is)
                        ∙ drop_front (encode_int number) rest),
              );
            })
      | inr (failed, denied) ↦
          rw (failed, evtag_decode)
            (record {
              valid = r.valid;
              thawed = r.freeze_start ∙ thawed;
              result = inr (refl, denied);
            })
    ]
