-- ===== src/Sched/Scan/Find.antt =====
-- The search for a task by its pointer.
use aarch64_rtos.Prelude.{ℕ, zero, suc, ◌+◌, ◌≤◌, ◌<◌, ◌≡◌, ◌≢◌, none, some, arith, ℕ_discrete}
use aarch64_rtos.Sched.Scan.{find_slot}

module _ (tasks : ℕ → ℕ) (t : ℕ) where
  -- A slot that is found is in the range and holds the task.
  pub find_slot-some :
      (rounds i idx : ℕ)
      → find_slot tasks t rounds i ≡ some idx
      → (i ≤ idx) × (idx < i + rounds) × (tasks idx ≡ t)
  unfolding find_slot
  find_slot-some zero i idx e = cc
  find_slot-some (suc rounds) i idx e = ground (arith, find_slot-some rounds (i + 1) idx)

  -- Where none is found, no slot of the range holds the task.
  pub find_slot-none :
      (rounds i m : ℕ) → find_slot tasks t rounds i ≡ none → i ≤ m → m < i + rounds → tasks m ≢ t
  unfolding find_slot
  find_slot-none zero i m e a b = absurd (omega arith)
  find_slot-none (suc rounds) i m e a b = elim (ℕ_discrete i m) [
    | yes q ↦ rw (← q) (ground arith)
    | no q ↦ ground (arith, find_slot-none rounds (i + 1) m)
  ]
