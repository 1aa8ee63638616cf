-- ===== src/Tagging/Ints.antt =====
-- An integer comes back from its nibbles.
use libevent.Common.{
  ℕ, ◌+◌, ◌-◌, ◌*◌, ◌/◌, ◌%◌, ◌^◌, ◌<◌, ◌≤◌, ◌≡◌, ◌≢◌, refl, sym, ap, ◌∙◌, ◌++◌, false, some, List,
  ◌==◌, ltb, ◌||◌, if◌then◌else◌, length, length-take, length-append, take, arith,
}
use native.Mathlib.Decide.{ℕ_discrete}
use libevent.Tagging.Codec.{
  at, nibble, write_nibble, write_nibbles, encode_int_internal, encode_int, encode_int64, zeros_5,
  zeros_9, read_nibbles, decode_int_internal, decode_int, decode_int64,
}
use libevent.Tagging.Nibbles.{
  at-take, length-write_nibble, nibble-write_nibble, nibble-write_ne, value, read_nibbles-value,
  value-agree, Fits, Written, write_nibbles-Written,
}

nibble-agree : (xs ys : List ℕ) (i : ℕ) → at xs (i / 2) ≡ at ys (i / 2) → nibble xs i ≡ nibble ys i
unfolding nibble
nibble-agree xs ys i e = rw e refl

-- Decoding what has been written, where some nibble has been.
module _ (fuel : ℕ) (xs : List ℕ) (number : ℕ) (rest : List ℕ) (out : List ℕ × ℕ)
    (w : Written fuel xs 1 number out) (small : fuel ≤ 16) (room : fuel + 1 ≤ length xs * 2)
    (some_nibble : number ≢ 0) (fits : number % 16 ^ fuel ≡ number) where
  unfolding_off : 2 ≤ out.1
  unfolding value
  unfolding_off = elim (ℕ_discrete out.1 1) [
    | yes one ↦
        let z : out.1 - 1 ≡ 0 = omega (arith, one) in
        let e : number ≡ 0 = sym w.is ∙ ap (value out.0 1) z in absurd (some_nibble e)
    | no other ↦ omega (arith, w.more, other)
  ]

  abbrev final : List ℕ
  final = write_nibble out.0 0 (if ltb 2 out.1 then out.1 - 2 else 0)

  abbrev len : ℕ
  len = (out.1 + 1) / 2

  abbrev written : List ℕ
  written = take len final ++ rest

  length-final : length final ≡ length xs
  length-final = length-write_nibble out.0 0 _ ∙ w.long

  len_le : len ≤ length final
  len_le = omega (arith, w.few, length-final)

  nibble-written : (i : ℕ) → 1 ≤ i → i < out.1 → nibble written i ≡ nibble out.0 i
  nibble-written i p q =
      let inside : i / 2 < len = omega arith in
      let same = at-take final rest len (i / 2) inside len_le in
      nibble-agree written final i same
      ∙ nibble-write_ne out.0 0 i _ (omega (arith, w.long, room)) (λ z. absurd (omega arith))

  -- The first byte says how many nibbles come behind its own.
  high_nibble : at written 0 / 16 ≡ out.1 - 2
  high_nibble =
      let inside : 0 < len = omega (arith, unfolding_off) in
      let same = at-take final rest len 0 inside len_le in
      let top =
        nibble-write_nibble out.0 0 (if ltb 2 out.1 then out.1 - 2 else 0)
          (omega (arith, w.long, room)) in
      unfold nibble in ground (arith, same, top, w.few, unfolding_off)

  decode-Written : decode_int_internal fuel written ≡ some (number, len)
  unfolding decode_int_internal value
  decode-Written =
      let n : ℕ = out.1 - 1 in
      let count : at written 0 / 16 % 16 + 1 ≡ n =
        omega (arith, high_nibble, w.few, unfolding_off) in
      let total = length-append (take len final) rest in
      let part = length-take len final len_le in
      let back : read_nibbles written n 0 ≡ number =
        read_nibbles-value written n 0
        ∙ ap (value written 1) (omega arith)
        ∙ value-agree written out.0 1 n (λ i p q. nibble-written i p (omega arith))
        ∙ w.is in
      let long : n / 2 + 1 ≡ len = omega (arith, unfolding_off) in
      let some_there : (length written == 0) ≡ false = ground (arith, total, part, unfolding_off) in
      let fine : (ltb fuel n || ltb (length written) (n / 2 + 1)) ≡ false =
        ground (arith, total, part, w.few, long) in
      rw (count, some_there, fine, back, fits, long) refl

-- A number comes back from the bytes that ENCODE_INT_INTERNAL writes.
decode-encode :
    (fuel : ℕ) (zeros : List ℕ) (number : ℕ) (rest : List ℕ)
    → fuel ≤ 16
    → fuel + 1 ≤ length zeros * 2
    → number ≢ 0
    → Fits fuel number
    → number % 16 ^ fuel ≡ number
    → (decode_int_internal fuel (encode_int_internal fuel zeros number ++ rest)
        ≡ some (number, length (encode_int_internal fuel zeros number)))
      × (length (encode_int_internal fuel zeros number) ≤ (fuel + 2) / 2)
unfolding encode_int_internal
decode-encode fuel zeros number rest small room some_nibble f fits =
    let out = write_nibbles fuel zeros 1 number in
    let w = write_nibbles-Written fuel zeros 1 number f (omega arith) in
    let long =
      length-take (len fuel zeros number rest out w small room some_nibble fits)
        (final fuel zeros number rest out w small room some_nibble fits)
        (len_le fuel zeros number rest out w small room some_nibble fits) in
    (
      decode-Written fuel zeros number rest out w small room some_nibble fits
          ∙ ap (λ (k : ℕ). some (number, k)) (sym long),
      omega (arith, long, w.few),
    )

zero_comes_back :
    (rest : List ℕ)
    → (decode_int (encode_int 0 ++ rest) ≡ some (0, length (encode_int 0)))
      × (length (encode_int 0) ≤ 5)
unfolding decode_int encode_int encode_int_internal write_nibbles write_nibble decode_int_internal
    read_nibbles nibble
zero_comes_back rest = ground arith

zero_comes_back_64 :
    (rest : List ℕ)
    → (decode_int64 (encode_int64 0 ++ rest) ≡ some (0, length (encode_int64 0)))
      × (length (encode_int64 0) ≤ 9)
unfolding decode_int64 encode_int64 encode_int_internal write_nibbles write_nibble
    decode_int_internal read_nibbles nibble
zero_comes_back_64 rest = ground arith

-- Decoding the bytes of a 32-bit integer, whatever comes behind them, gives the integer and how
-- many they are, which is five at most.
pub decode_int-encode_int :
    (number : ℕ) (rest : List ℕ)
    → number < 2 ^ 32
    → (decode_int (encode_int number ++ rest) ≡ some (number, length (encode_int number)))
      × (length (encode_int number) ≤ 5)
unfolding decode_int encode_int
decode_int-encode_int number rest h = elim (ℕ_discrete number 0) [
  | yes z ↦ rw z (zero_comes_back rest)
  | no some_nibble ↦
      decode-encode 8 zeros_5 number rest (omega arith) (omega arith) some_nibble (omega arith)
        (omega arith)
]

-- Decoding the bytes of a 64-bit integer, whatever comes behind them, gives the integer and how
-- many they are, which is nine at most.
decode_int64-encode_int64 :
    (number : ℕ) (rest : List ℕ)
    → number < 2 ^ 64
    → (decode_int64 (encode_int64 number ++ rest) ≡ some (number, length (encode_int64 number)))
      × (length (encode_int64 number) ≤ 9)
unfolding decode_int64 encode_int64
decode_int64-encode_int64 number rest h = elim (ℕ_discrete number 0) [
  | yes z ↦ rw z (zero_comes_back_64 rest)
  | no some_nibble ↦
      decode-encode 16 zeros_9 number rest (omega arith) (omega arith) some_nibble (omega arith)
        (omega arith)
]
