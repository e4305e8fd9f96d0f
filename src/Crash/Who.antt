-- ===== src/Crash/Who.antt =====
-- Whom the dump of a fault (kernel/main.c) names: the worker that the stack pointer is put down to, and
-- the current task.
use aarch64_rtos.Prelude.{
  ℕ, zero, suc, ◌+◌, ◌^◌, ◌<◌, ◌≡◌, ◌≢◌, inl, inr, ◌==◌, subst, ==→eq, ==→ne, arith, Bool-cases,
}
use aarch64_rtos.Boot.{Image, task_worker, busy_task}
use aarch64_rtos.Debug.{in_stack}
use aarch64_rtos.Debug.First.{FirstOf, none_of_them, first, FirstOf-below}
use aarch64_rtos.Debug.Hooks.{InStack, in_stack-InStack, in_stack-out}
use aarch64_rtos.Crash.{find_stack, current_code}

-- The stack pointer lies in the stack of the worker.
abbrev pub InStackOf : Image → ℕ → ℕ → Type 0
InStackOf img sp i = InStack (img.address (task_worker i)) sp

pub find_stack-FirstOf :
    (img : Image) (sp rounds i hi : ℕ)
    → hi ≡ i + rounds
    → FirstOf (InStackOf img sp) i hi (find_stack img sp rounds i)
unfolding find_stack
find_stack-FirstOf img sp zero i hi e = none_of_them (λ j ge lt. omega (arith, ge, lt, e))
find_stack-FirstOf img sp (suc rounds) i hi e =
    elim (Bool-cases (in_stack (img.address (task_worker i)) sp)) [
      | inl here ↦ rw here (
          first i (omega arith) (omega (arith, e)) (in_stack-InStack _ sp here)
            (λ j ge lt. omega (arith, ge, lt)))
      | inr out ↦ rw out (
          FirstOf-below (InStackOf img sp) i hi _ (in_stack-out _ sp out)
            (find_stack-FirstOf img sp rounds (i + 1) hi (omega (arith, e))))
    ]

pub find_stack-small :
    (img : Image) (sp rounds i : ℕ) → i + rounds < 2 ^ 32 → find_stack img sp rounds i < 2 ^ 32
unfolding find_stack
find_stack-small img sp zero i lt = ground arith
find_stack-small img sp (suc rounds) i lt =
    ground (arith, find_stack-small img sp rounds (i + 1) (omega arith))

-- The number that stands for the current task: 98 for none, 0 to 2 for the workers, 3 for the busy task,
-- and 99 for any other.
pub data CurrentCode (img : Image) (t : ℕ) : ℕ → Type 0 where
  no_task : t ≡ 0 → CurrentCode img t 98
  a_worker :
      (i : ℕ)
      → t ≢ 0
      → i < 3
      → t ≡ img.address (task_worker i)
      → ((j : ℕ) → j < i → t ≢ img.address (task_worker j))
      → CurrentCode img t i
  the_busy_task :
      t ≢ 0
      → ((j : ℕ) → j < 3 → t ≢ img.address (task_worker j))
      → t ≡ img.address busy_task
      → CurrentCode img t 3
  another :
      t ≢ 0
      → ((j : ℕ) → j < 3 → t ≢ img.address (task_worker j))
      → t ≢ img.address busy_task
      → CurrentCode img t 99

-- Different from the first one, two and three workers
not_first : (P : ℕ → Type 0) → P 0 → (j : ℕ) → j < 1 → P j
not_first P p j lt = subst P (omega (arith, lt)) p

not_second : (P : ℕ → Type 0) → P 0 → P 1 → (j : ℕ) → j < 2 → P j
not_second P p q zero lt = p
not_second P p q (suc j) lt = subst P (omega (arith, lt)) q

not_third : (P : ℕ → Type 0) → P 0 → P 1 → P 2 → (j : ℕ) → j < 3 → P j
not_third P p q r zero lt = p
not_third P p q r (suc zero) lt = q
not_third P p q r (suc (suc j)) lt = subst P (omega (arith, lt)) r

pub current_code-CurrentCode : (img : Image) (t : ℕ) → CurrentCode img t (current_code img t)
unfolding current_code
current_code-CurrentCode img t =
    let IsOther : ℕ → Type 0 = λ j. t ≢ img.address (task_worker j) in
    elim (Bool-cases (t == 0)) [
      | inl z ↦ rw z (no_task (==→eq _ _ z))
      | inr z ↦ elim (Bool-cases (t == img.address (task_worker 0))) [
        | inl a ↦
            rw (z, a)
              (a_worker 0 (==→ne _ _ z) (omega arith) (==→eq _ _ a)
                (λ j lt. absurd (omega (arith, lt))))
        | inr a ↦ elim (Bool-cases (t == img.address (task_worker 1))) [
          | inl b ↦
              rw (z, a, b)
                (a_worker 1 (==→ne _ _ z) (omega arith) (==→eq _ _ b)
                  (not_first IsOther (==→ne _ _ a)))
          | inr b ↦ elim (Bool-cases (t == img.address (task_worker 2))) [
            | inl c ↦
                rw (z, a, b, c)
                  (a_worker 2 (==→ne _ _ z) (omega arith) (==→eq _ _ c)
                    (not_second IsOther (==→ne _ _ a) (==→ne _ _ b)))
            | inr c ↦
                let others = not_third IsOther (==→ne _ _ a) (==→ne _ _ b) (==→ne _ _ c) in
                elim (Bool-cases (t == img.address busy_task)) [
                  | inl d ↦ rw (z, a, b, c, d) (the_busy_task (==→ne _ _ z) others (==→eq _ _ d))
                  | inr d ↦ rw (z, a, b, c, d) (another (==→ne _ _ z) others (==→ne _ _ d))
                ]
          ]
        ]
      ]
    ]

pub current_code-small : (img : Image) (t : ℕ) → current_code img t < 2 ^ 32
unfolding current_code
current_code-small img t = ground arith
