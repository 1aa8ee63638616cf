-- ===== src/Common/Lists.antt =====
-- Lists of numbers: their length, and how often a number stands in one.
use Prim.Native.Nat.{ℕ, zero, suc, ◌+◌, ◌-◌, ◌≤◌, ◌<◌}
use mathlib.Core.Path.{◌≡◌, refl}
use mathlib.Core.List.{List, [], ◌∷◌, ◌++◌}
use native.Mathlib.Omega.{arith}
use libevent.Common.Tests.{◌==◌, if◌then◌else◌}
use libevent.Common.Memory.{update}

abbrev pub length {ℓ} : {A : Type ℓ} → List A → ℕ
length [] = 0
length (x ∷ xs) = suc (length xs)

abbrev pub one_if : ℕ → ℕ → ℕ
one_if a b = if a == b then 1 else 0

abbrev pub count : ℕ → List ℕ → ℕ
count a [] = 0
count a (x ∷ xs) = one_if x a + count a xs

-- The first occurrence goes.
unfoldable pub remove : ℕ → List ℕ → List ℕ
remove e [] = []
remove e (x ∷ xs) = if e == x then xs else x ∷ remove e xs

pub count-append_one : (a b : ℕ) (xs : List ℕ) → count a (xs ++ b ∷ []) ≡ count a xs + one_if b a
count-append_one a b [] = omega arith
count-append_one a b (x ∷ xs) = omega (arith, count-append_one a b xs)

pub count-remove : (a e : ℕ) (xs : List ℕ) → count a (remove e xs) ≡ count a xs - one_if e a
unfolding remove
count-remove a e [] = omega arith
count-remove a e (x ∷ xs) = ground (arith, count-remove a e xs)

pub length-append_one : (b : ℕ) (xs : List ℕ) → length (xs ++ b ∷ []) ≡ length xs + 1
length-append_one b [] = omega arith
length-append_one b (x ∷ xs) = omega (arith, length-append_one b xs)

pub length-remove : (e : ℕ) (xs : List ℕ) → 0 < count e xs → length (remove e xs) + 1 ≡ length xs
unfolding remove
length-remove e [] h = absurd (omega arith)
length-remove e (x ∷ xs) h = ground (arith, length-remove e xs)

-- The sum of the lengths of the first `n` lists.
unfoldable pub total : (ℕ → List ℕ) → ℕ → ℕ
total f zero = 0
total f (suc n) = length (f n) + total f n

total-outside :
    (f : ℕ → List ℕ) (q : ℕ) (xs : List ℕ) (n : ℕ) → n ≤ q → total (update f q xs) n ≡ total f n
unfolding total
total-outside f q xs zero h = refl
total-outside f q xs (suc n) h = ground (arith, total-outside f q xs n)

pub total-update :
    (f : ℕ → List ℕ) (q : ℕ) (xs : List ℕ) (n : ℕ)
    → q < n
    → total (update f q xs) n + length (f q) ≡ total f n + length xs
unfolding total
total-update f q xs zero h = absurd (omega arith)
total-update f q xs (suc n) h = ground (arith, total-update f q xs n, total-outside f q xs n)
