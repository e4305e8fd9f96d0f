-- ===== src/Sched/Migrate/Queues.antt =====
-- What `sched_migrate` does to the two queues.
use aarch64_rtos.Prelude.{
  ℕ, ◌-◌, ◌<◌, ◌≡◌, ◌≢◌, ◌⊎◌, inl, inr, arith, update, ℕ_discrete, ap, sym, ◌∙◌,
}
use aarch64_rtos.Kernel.{Tcb, Runqueue, max_tasks}
use aarch64_rtos.Sched.Valid.{IsValidRq}
use aarch64_rtos.Sched.Migrate.{remove_slot, append_task}

-- The queue holds the task.
abbrev pub Holds : Runqueue → ℕ → Type 0
Holds rq u = (i : ℕ) × (i < rq.num_tasks) × (rq.tasks i ≡ u)

module _ (tcbs : ℕ → Tcb) (c idx : ℕ) (rq : Runqueue) (v : IsValidRq tcbs c rq)
    (lt : idx < rq.num_tasks) where
  -- The queue stays valid for every choice of control blocks that leaves the other tasks at home.
  pub remove_slot-IsValidRq :
      (tcbs' : ℕ → Tcb)
      → ((u : ℕ) → u ≢ rq.tasks idx → (tcbs' u).cpu ≡ (tcbs u).cpu)
      → IsValidRq tcbs' c (remove_slot idx rq)
  unfolding remove_slot update
  remove_slot-IsValidRq tcbs' same = record {
    few = omega (arith, v.few);
    indexed = ground (arith, v.indexed);
    home = λ i h. ground (
      arith,
      v.home i,
      v.home (rq.num_tasks - 1),
      same (rq.tasks i),
      same (rq.tasks (rq.num_tasks - 1)),
      v.distinct i idx,
      v.distinct (rq.num_tasks - 1) idx,
    );
    distinct = λ i j a b e.
        ground
          (arith, v.distinct i j, v.distinct i (rq.num_tasks - 1), v.distinct (rq.num_tasks - 1) j);
  }

  -- The other tasks stay, and the one that leaves is gone.
  pub remove_slot-keeps : (u : ℕ) → u ≢ rq.tasks idx → Holds rq u → Holds (remove_slot idx rq) u
  unfolding remove_slot update
  remove_slot-keeps u ne (i, h, e) = elim (ℕ_discrete i (rq.num_tasks - 1)) [
    | yes q ↦
        let last : idx ≢ rq.num_tasks - 1 = λ z. ne (sym e ∙ ap rq.tasks (q ∙ sym z)) in
        (idx, omega arith, ground arith)
    | no q ↦ (i, omega arith, ground arith)
  ]

  pub remove_slot-only : (u : ℕ) → Holds (remove_slot idx rq) u → Holds rq u × (u ≢ rq.tasks idx)
  unfolding remove_slot update
  remove_slot-only u (i, h, e) = elim (ℕ_discrete idx i) [
    | yes q ↦ (
      (rq.num_tasks - 1, omega arith, ground arith),
      λ z. ground (arith, v.distinct (rq.num_tasks - 1) idx),
    )
    | no q ↦ ((i, omega arith, ground arith), λ z. ground (arith, v.distinct i idx))
  ]

module _ (tcbs : ℕ → Tcb) (c t : ℕ) (rq : Runqueue) (v : IsValidRq tcbs c rq) where
  pub append_task-IsValidRq :
      (tcbs' : ℕ → Tcb)
      → rq.num_tasks < max_tasks
      → (tcbs' t).cpu ≡ c
      → (tcbs t).cpu ≢ c
      → ((u : ℕ) → u ≢ t → (tcbs' u).cpu ≡ (tcbs u).cpu)
      → IsValidRq tcbs' c (append_task t rq)
  unfolding append_task update
  append_task-IsValidRq tcbs' room here away same = record {
    few = omega arith;
    indexed = omega (arith, v.indexed);
    home = λ i h. ground (arith, v.home i, same (rq.tasks i));
    distinct = λ i j a b e. ground (arith, v.distinct i j, v.home i, v.home j);
  }

pub append_task-Holds :
    (t u : ℕ) (rq : Runqueue) → Holds (append_task t rq) u → Holds rq u ⊎ (u ≡ t)
unfolding append_task update
append_task-Holds t u rq (i, h, e) = elim (ℕ_discrete rq.num_tasks i) [
  | yes q ↦ inr (ground arith)
  | no q ↦ inl (i, omega arith, ground arith)
]

pub append_task-keeps : (t u : ℕ) (rq : Runqueue) → Holds rq u → Holds (append_task t rq) u
unfolding append_task update
append_task-keeps t u rq (i, h, e) = (i, omega arith, ground arith)

pub append_task-new : (t : ℕ) (rq : Runqueue) → Holds (append_task t rq) t
unfolding append_task update
append_task-new t rq = (rq.num_tasks, omega arith, ground arith)
