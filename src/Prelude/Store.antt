-- ===== src/Prelude/Store.antt =====
-- Arrays and memories as functions from an index.
use Prim.Native.Nat.{ℕ}
use mathlib.Core.Path.{◌≡◌, fun_ext}
use mathlib.Core.Logic.{◌≢◌}
use native.Mathlib.Omega.{arith}
use aarch64_rtos.Prelude.Tests.{◌==◌, if◌then◌else◌}

-- `f[i] = a`.
unfoldable pub update {ℓ} : {A : Type ℓ} → (ℕ → A) → ℕ → A → ℕ → A
update f i a j = if i == j then a else f j

module _ {ℓ} {A : Type ℓ} (f : ℕ → A) (i : ℕ) where
  pub update-update : (a b : A) → update (update f i a) i b ≡ update f i b
  unfolding update
  update-update a b = fun_ext λ j. ground arith

  pub update_self : update f i (f i) ≡ f
  unfolding update
  update_self = fun_ext λ j. ground arith

  pub update-at : (a : A) → update f i a i ≡ a
  unfolding update
  update-at a = ground arith

  pub update-ne : (a : A) (j : ℕ) → i ≢ j → update f i a j ≡ f j
  unfolding update
  update-ne a j h = ground arith
