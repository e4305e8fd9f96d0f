-- ===== src/Lock/Cores/Sum.antt =====
-- Sums over the first cores of a machine.
use aarch64_rtos.Prelude.{ℕ, zero, suc, ◌+◌, ◌*◌, ◌≤◌, ◌<◌, ◌≡◌, ◌≢◌, refl, arith, ℕ_discrete}

module _ {ℓ} {A : Type ℓ} (w : A → ℕ) where
  pub total : ℕ → (ℕ → A) → ℕ
  total zero f = 0
  total (suc n) f = total n f + w (f n)

  total-cong : (n : ℕ) (f g : ℕ → A) → ((j : ℕ) → j < n → w (f j) ≡ w (g j)) → total n f ≡ total n g
  unfolding total
  total-cong zero f g h = refl
  total-cong (suc n) f g h =
      omega (arith, total-cong n f g (λ j lt. h j (omega arith)), h n (omega arith))

  -- Only the term at `i` differs.
  pub total-change :
      (n : ℕ) (f g : ℕ → A) (i : ℕ)
      → i < n
      → ((j : ℕ) → j ≢ i → w (f j) ≡ w (g j))
      → total n g + w (f i) ≡ total n f + w (g i)
  unfolding total
  total-change zero f g i lt h = absurd (omega arith)
  total-change (suc n) f g i lt h = elim (ℕ_discrete n i) [
    | yes e ↦ rw e (omega (arith, total-cong i f g (λ j below. h j (omega arith))))
    | no ne ↦ omega (arith, total-change n f g i (omega arith) h, h n ne)
  ]

  pub total-le : (b n : ℕ) (f : ℕ → A) → ((j : ℕ) → w (f j) ≤ b) → total n f ≤ n * b
  unfolding total
  total-le b zero f h = omega arith
  total-le b (suc n) f h = grind (arith, total-le b n f h, h n)

  pub total-const : (b n : ℕ) (f : ℕ → A) → ((j : ℕ) → j < n → w (f j) ≡ b) → total n f ≡ n * b
  unfolding total
  total-const b zero f h = omega arith
  total-const b (suc n) f h =
      grind (arith, total-const b n f (λ j lt. h j (omega arith)), h n (omega arith))
