-- ===== src/Sched/Policy/Ewma.antt =====
-- The load estimate of kernel/sched.c: its range, and where it goes.
use aarch64_rtos.Prelude.{
  ℕ, zero, suc, ◌+◌, ◌-◌, ◌≤◌, ◌<◌, ◌≡◌, refl, ap, ◌∙◌, ◌⊎◌, inl, inr, dec_lt, arith,
}
use aarch64_rtos.Sched.Policy.{ewma}

-- `n` ticks.
unfoldable pub ewma_after : ℕ → ℕ → ℕ
ewma_after zero load = load
ewma_after (suc n) load = ewma_after n (ewma load)

-- A tick keeps the load within the scale 0 … 1000 and never lowers it; below 997 it raises it.
pub ewma_bounds :
    (load : ℕ)
    → load ≤ 1000
    → (load ≤ ewma load) × (ewma load ≤ 1000) × ((997 ≤ load) ⊎ (load < ewma load))
unfolding ewma
ewma_bounds load h = elim (dec_lt load 997) [
  | yes p ↦ (omega arith, omega arith, inr (omega arith))
  | no p ↦ (omega arith, omega arith, inl (omega arith))
]

ewma_mono : (a b : ℕ) → a ≤ b → b ≤ 1000 → ewma a ≤ ewma b
unfolding ewma
ewma_mono a b h k = omega arith

ewma_stays : (load : ℕ) → load ≤ 997 → ewma load ≤ 997
unfolding ewma
ewma_stays load h = omega arith

ewma_after_mono : (n a b : ℕ) → a ≤ b → b ≤ 997 → ewma_after n a ≤ ewma_after n b
unfolding ewma_after
ewma_after_mono zero a b h k = h
ewma_after_mono (suc n) a b h k =
    ewma_after_mono n (ewma a) (ewma b) (ewma_mono a b h (omega arith)) (ewma_stays b k)

ewma_after-le : (n load : ℕ) → load ≤ 997 → ewma_after n load ≤ 997
unfolding ewma_after
ewma_after-le zero load h = h
ewma_after-le (suc n) load h = ewma_after-le n (ewma load) (ewma_stays load h)

from_zero : ewma_after 20 0 ≡ 997
unfolding ewma_after ewma
from_zero = refl

ewma_after-add : (m n load : ℕ) → ewma_after (m + n) load ≡ ewma_after n (ewma_after m load)
unfolding ewma_after
ewma_after-add zero n load = let e : 0 + n ≡ n = omega arith in ap (λ k. ewma_after k load) e
ewma_after-add (suc m) n load =
    let e : suc m + n ≡ suc (m + n) = omega arith in
    ap (λ k. ewma_after k load) e ∙ ewma_after-add m n (ewma load)

ewma_after_fixed : (n : ℕ) → ewma_after n 997 ≡ 997
unfolding ewma_after ewma
ewma_after_fixed zero = refl
ewma_after_fixed (suc n) = ewma_after_fixed n

-- From any load up to 997, such as the 0 that a task starts with, 20 ticks or more bring the load of
-- the running task to 997, and it stays there.
pub ewma_saturates : (load n : ℕ) → load ≤ 997 → 20 ≤ n → ewma_after n load ≡ 997
ewma_saturates load n h k =
    let e : n ≡ 20 + (n - 20) = omega arith in
    let top : ewma_after 20 load ≡ 997 =
      omega (arith, ewma_after_mono 20 0 load, ewma_after-le 20 load h, from_zero) in
    rw (e, ewma_after-add, top) (ewma_after_fixed (n - 20))
