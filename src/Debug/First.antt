-- ===== src/Debug/First.antt =====
-- The loops of kernel/main.c over the workers that stop at the first one that passes a test:
-- `worker_id_of`, and the search for a stack in the dump of a fault.
use aarch64_rtos.Prelude.{
  ℕ, zero, suc, ◌+◌, ◌≤◌, ◌<◌, ◌≡◌, ◌≢◌, ◌⊎◌, inl, inr, subst, ==→eq, ==→ne, arith, Bool-cases,
  ◌==◌,
}
use aarch64_rtos.Boot.{Image, task_worker, busy_task}
use aarch64_rtos.Debug.{minus_one, find_worker, worker_id_of, task_id}

-- The first number from `lo` on and below `hi` with a property, or -1 if there is none.
pub data FirstOf (P : ℕ → Type 0) (lo hi : ℕ) : ℕ → Type 0 where
  none_of_them : ((i : ℕ) → lo ≤ i → i < hi → ¬ P i) → FirstOf P lo hi minus_one
  first : (i : ℕ) → lo ≤ i → i < hi → P i → ((j : ℕ) → lo ≤ j → j < i → ¬ P j) → FirstOf P lo hi i

not_below : (P : ℕ → Type 0) {i j : ℕ} → ¬ P i → (i < j ⊎ i ≡ j) → (i < j → ¬ P j) → ¬ P j
not_below P out (inl lt) later = later lt
not_below P out (inr e) later = subst (λ n. ¬ P n) e out

-- One more number below those looked at
pub FirstOf-below :
    (P : ℕ → Type 0) (lo hi m : ℕ) → ¬ P lo → FirstOf P (lo + 1) hi m → FirstOf P lo hi m
FirstOf-below P lo hi _ out (none_of_them all) =
    none_of_them
      (λ i ge lt. not_below P out (omega (arith, ge)) (λ above. all i (omega (arith, above)) lt))
FirstOf-below P lo hi _ out (first i ge lt here before) =
    first i (omega (arith, ge)) lt here (λ j ge1 lt1.
      not_below P out (omega (arith, ge1)) (λ above. before j (omega (arith, above)) lt1))

-- The task is the worker's.
abbrev pub IsTaskOf : Image → ℕ → ℕ → Type 0
IsTaskOf img t i = img.address (task_worker i) ≡ t

find_worker-FirstOf :
    (img : Image) (t rounds i hi : ℕ)
    → hi ≡ i + rounds
    → FirstOf (IsTaskOf img t) i hi (find_worker img t rounds i)
unfolding find_worker
find_worker-FirstOf img t zero i hi e = none_of_them (λ j ge lt. omega (arith, ge, lt, e))
find_worker-FirstOf img t (suc rounds) i hi e =
    elim (Bool-cases (img.address (task_worker i) == t)) [
      | inl here ↦ rw here (
          first i (omega arith) (omega (arith, e)) (==→eq _ _ here)
            (λ j ge lt. omega (arith, ge, lt)))
      | inr out ↦ rw out (
          FirstOf-below (IsTaskOf img t) i hi _ (==→ne _ _ out)
            (find_worker-FirstOf img t rounds (i + 1) hi (omega (arith, e))))
    ]

-- The number of a task in the history: that of the worker, and -1 for the busy task and any other.
pub data TaskNumber (img : Image) (t : ℕ) : ℕ → Type 0 where
  busy : t ≡ img.address busy_task → TaskNumber img t minus_one
  other : (n : ℕ) → t ≢ img.address busy_task → FirstOf (IsTaskOf img t) 0 3 n → TaskNumber img t n

pub task_id-TaskNumber : (img : Image) (t : ℕ) → TaskNumber img t (task_id img t)
unfolding worker_id_of
task_id-TaskNumber img t = elim (Bool-cases (t == img.address busy_task)) [
  | inl e ↦ rw e (busy (==→eq _ _ e))
  | inr e ↦ rw e (other _ (==→ne _ _ e) (find_worker-FirstOf img t 3 0 3 (omega arith)))
]
