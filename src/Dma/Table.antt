-- ===== src/Dma/Table.antt =====
-- The table of requests after `pending_register` of kernel/main.c.
use aarch64_rtos.Prelude.{
  ℕ, ==→eq, ==→ne, zero, suc, ◌+◌, ◌≤◌, ◌<◌, ◌≡◌, ◌≢◌, ◌⊎◌, refl, sym, ap, Bool-cases, inl, inr,
  none, some, ◌==◌, update-at, update-ne, arith, ℕ_discrete,
}
use aarch64_rtos.Dma.{Pending, num_workers, find_unused, pending_register}

-- The table after a request with the number `cmd` and the semaphore `sem`: a slot that was free has it,
-- waiting for its completion, and the others are as they were; or no slot was free, and the table is
-- as it was.
pub data Registered (cmd sem : ℕ) (old new : ℕ → Pending) : Type 0 where
  entered :
      (i : ℕ)
      → i < 3
      → (old i).used ≡ 0
      → (new i).cmd_id ≡ cmd
      → (new i).sem ≡ sem
      → (new i).used ≡ 1
      → (new i).done ≡ 0
      → ((j : ℕ) → j ≢ i → new j ≡ old j)
      → Registered cmd sem old new
  full : ((i : ℕ) → i < 3 → (old i).used ≢ 0) → new ≡ old → Registered cmd sem old new

find_unused-cases :
    (pending : ℕ → Pending) (rounds i : ℕ)
    → ((find_unused pending rounds i ≡ none)
        × ((j : ℕ) → i ≤ j → j < i + rounds → (pending j).used ≢ 0))
      ⊎ (j : ℕ) × (find_unused pending rounds i ≡ some j)
        × (j < i + rounds)
        × ((pending j).used ≡ 0)
unfolding find_unused
find_unused-cases pending zero i = inl (refl, λ j le lt. absurd (omega arith))
find_unused-cases pending (suc rounds) i = elim (Bool-cases ((pending i).used == 0)) [
  | inl z ↦ inr (i, rw z refl, omega arith, ==→eq _ _ z)
  | inr z ↦ elim (find_unused-cases pending rounds (i + 1)) [
    | inl (e, taken) ↦ inl (
      rw z e,
      λ j le lt. elim (ℕ_discrete j i) [
        | yes q ↦ rw q (==→ne _ _ z)
        | no q ↦ taken j (omega arith) (omega arith)
      ],
    )
    | inr (j, e, lt, free) ↦ inr (j, rw z e, omega (arith, lt), free)
  ]
]

pub pending_register-Registered :
    (cmd sem : ℕ) (pending : ℕ → Pending)
    → Registered cmd sem pending (pending_register cmd sem pending)
unfolding pending_register
pending_register-Registered cmd sem pending = elim (find_unused-cases pending num_workers 0) [
  | inl (e, taken) ↦ rw (pending_register, e) (full (λ i lt. taken i (omega arith) lt) refl)
  | inr (i, e, lt, free) ↦
      let entry : Pending = record (pending i) { cmd_id = cmd; sem = sem; used = 1; done = 0 } in
      let here = update-at pending i entry in
      rw (pending_register, e)
        (entered i lt free (ap (λ (p : Pending). p.cmd_id) here) (ap (λ (p : Pending). p.sem) here)
          (ap (λ (p : Pending). p.used) here) (ap (λ (p : Pending). p.done) here)
          (λ j ne. update-ne pending i entry j (λ z. ne (sym z))))
]
