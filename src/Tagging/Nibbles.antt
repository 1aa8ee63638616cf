-- ===== src/Tagging/Nibbles.antt =====
-- The nibbles of an integer: what the loops of ENCODE_INT_INTERNAL and DECODE_INT_INTERNAL do.
use libevent.Common.{
  ℕ, zero, suc, ◌+◌, ◌-◌, ◌*◌, ◌/◌, ◌%◌, ◌<◌, ◌≤◌, ◌≡◌, ◌≢◌, refl, sym, ap, ◌∙◌, ◌++◌, List, [],
  ◌∷◌, ◌==◌, if◌then◌else◌, length, take, set, arith, Bool-cases, inl, inr,
}
use native.Mathlib.Decide.{ℕ_discrete}
use libevent.Tagging.Codec.{at, nibble, write_nibble, write_nibbles, read_nibbles}

length-set : (xs : List ℕ) (i v : ℕ) → length (set xs i v) ≡ length xs
length-set [] i v = refl
length-set (x ∷ xs) zero v = refl
length-set (x ∷ xs) (suc i) v = ap suc (length-set xs i v)

at-set_self : (xs : List ℕ) (i v : ℕ) → i < length xs → at (set xs i v) i ≡ v
at-set_self [] i v h = absurd (omega arith)
at-set_self (x ∷ xs) zero v h = refl
at-set_self (x ∷ xs) (suc i) v h = at-set_self xs i v (omega arith)

at-set_ne : (xs : List ℕ) (i j v : ℕ) → i ≢ j → at (set xs i v) j ≡ at xs j
at-set_ne [] i j v h = refl
at-set_ne (x ∷ xs) zero zero v h = absurd (h refl)
at-set_ne (x ∷ xs) zero (suc j) v h = refl
at-set_ne (x ∷ xs) (suc i) zero v h = refl
at-set_ne (x ∷ xs) (suc i) (suc j) v h = at-set_ne xs i j v (λ e. h (ap suc e))

pub at-take :
    (xs rest : List ℕ) (n i : ℕ) → i < n → n ≤ length xs → at (take n xs ++ rest) i ≡ at xs i
at-take xs rest zero i p q = absurd (omega arith)
at-take [] rest (suc n) i p q = absurd (omega arith)
at-take (x ∷ xs) rest (suc n) zero p q = refl
at-take (x ∷ xs) rest (suc n) (suc i) p q = at-take xs rest n i (omega arith) (omega arith)

pub length-write_nibble : (xs : List ℕ) (off v : ℕ) → length (write_nibble xs off v) ≡ length xs
unfolding write_nibble
length-write_nibble xs off v = length-set xs (off / 2) _

-- The nibble that is written, and the others.
pub nibble-write_nibble :
    (xs : List ℕ) (off v : ℕ) → off / 2 < length xs → nibble (write_nibble xs off v) off ≡ v % 16
unfolding nibble write_nibble
nibble-write_nibble xs off v h = ground (
  arith,
  at-set_self xs (off / 2) (
      if off % 2 == 1
      then at xs (off / 2) / 16 * 16 + v % 16
      else at xs (off / 2) % 16 + v % 16 * 16),
)

pub nibble-write_ne :
    (xs : List ℕ) (off i v : ℕ)
    → off / 2 < length xs
    → off ≢ i
    → nibble (write_nibble xs off v) i ≡ nibble xs i
unfolding nibble write_nibble
nibble-write_ne xs off i v h ne = elim (ℕ_discrete (off / 2) (i / 2)) [
  | yes same ↦ rw (← same) (
      ground (
        arith,
        same,
        at-set_self xs (off / 2) (
            if off % 2 == 1
            then at xs (off / 2) / 16 * 16 + v % 16
            else at xs (off / 2) % 16 + v % 16 * 16),
      ))
  | no apart ↦ ground (
    arith,
    at-set_ne xs (off / 2) (i / 2)
        (if off % 2 == 1
          then at xs (off / 2) / 16 * 16 + v % 16
          else at xs (off / 2) % 16 + v % 16 * 16)
        apart,
  )
]

-- The number that the nibbles from `lo` on make, the lowest first.
unfoldable pub value : List ℕ → ℕ → ℕ → ℕ
value xs lo zero = 0
value xs lo (suc k) = nibble xs lo + value xs (lo + 1) k * 16

pub read_nibbles-value :
    (xs : List ℕ) (j k : ℕ) → read_nibbles xs j (value xs (suc j) k) ≡ value xs 1 (j + k)
unfolding read_nibbles value
read_nibbles-value xs zero k = ap (value xs 1) (omega arith)
read_nibbles-value xs (suc j) k =
    let next : suc (suc j) ≡ suc j + 1 = omega arith in
    let step : value xs (suc (suc j)) k * 16 + nibble xs (suc j) ≡ value xs (suc j) (suc k) =
      rw next (omega arith) in
    let sum : j + suc k ≡ suc j + k = omega arith in
    ap (read_nibbles xs j) step ∙ read_nibbles-value xs j (suc k) ∙ ap (value xs 1) sum

pub value-agree :
    (xs ys : List ℕ) (lo k : ℕ)
    → ((i : ℕ) → lo ≤ i → i < lo + k → nibble xs i ≡ nibble ys i)
    → value xs lo k ≡ value ys lo k
unfolding value
value-agree xs ys lo zero h = refl
value-agree xs ys lo (suc k) h = omega (
  arith,
  h lo (omega arith) (omega arith),
  value-agree xs ys (lo + 1) k (λ i p q. h i (omega arith) (omega arith)),
)

-- The number has `fuel` nibbles at most.
abbrev pub Fits : ℕ → ℕ → Type 0
Fits zero number = number ≡ 0
Fits (suc fuel) number = Fits fuel (number / 16)

-- What the loop of ENCODE_INT_INTERNAL leaves: the nibbles of the number from `off` on.
pub record Written (fuel : ℕ) (xs : List ℕ) (off number : ℕ) (out : List ℕ × ℕ) : Type 0 where
  pub more : off ≤ out.1
  pub few : out.1 ≤ off + fuel
  pub long : length out.0 ≡ length xs
  pub before : (i : ℕ) → i < off → nibble out.0 i ≡ nibble xs i
  pub is : value out.0 off (out.1 - off) ≡ number

pub write_nibbles-Written :
    (fuel : ℕ) (xs : List ℕ) (off number : ℕ)
    → Fits fuel number
    → off + fuel ≤ length xs * 2
    → Written fuel xs off number (write_nibbles fuel xs off number)
unfolding write_nibbles value
write_nibbles-Written zero xs off number f h =
    let z : off - off ≡ 0 = omega arith in
    record {
      more = omega arith;
      few = omega arith;
      long = refl;
      before = λ i p. refl;
      is = rw z (sym f);
    }
write_nibbles-Written (suc fuel) xs off number f h = elim (Bool-cases (number == 0)) [
  | inl stop ↦
      let z : off - off ≡ 0 = omega arith in
      rw stop (record {
        more = omega arith;
        few = omega arith;
        long = refl;
        before = λ i p. refl;
        is = rw z (ground (arith, stop));
      })
  | inr go ↦
      let ys = write_nibble xs off number in
      let long = length-write_nibble xs off number in
      let r = write_nibbles-Written fuel ys (off + 1) (number / 16) f (omega (arith, long)) in
      let out = write_nibbles fuel ys (off + 1) (number / 16) in
      let k : out.1 - off ≡ suc (out.1 - (off + 1)) = omega (arith, r.more) in
      rw go (record {
        more = omega (arith, r.more);
        few = omega (arith, r.few);
        long = r.long ∙ long;
        before = λ i p.
            r.before i (omega arith) ∙ nibble-write_ne xs off i number (omega arith) (omega arith);
        is = rw k (
            omega (
              arith,
              r.is,
              r.before off (omega arith),
              nibble-write_nibble xs off number (omega arith),
            ));
      })
]
