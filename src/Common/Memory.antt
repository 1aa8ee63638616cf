-- ===== src/Common/Memory.antt =====
-- Memory as a function from an index to what stands there: an array, or one field of every object.
use Prim.Native.Nat.{ℕ}
use mathlib.Core.Path.{◌≡◌}
use mathlib.Core.Logic.{◌≢◌}
use native.Mathlib.Omega.{arith}
use libevent.Common.Tests.{◌==◌, if◌then◌else◌}

module _ {ℓ} {A : Type ℓ} where
  -- `f[i] = v`.
  abbrev pub update : (ℕ → A) → ℕ → A → ℕ → A
  update f i v j = if i == j then v else f j

  pub update_self : (f : ℕ → A) (i : ℕ) (v : A) → update f i v i ≡ v
  update_self f i v = ground arith

  pub update_ne : (f : ℕ → A) (i j : ℕ) (v : A) → i ≢ j → update f i v j ≡ f j
  update_ne f i j v h = ground arith
