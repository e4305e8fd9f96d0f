-- ===== src/Sched/Valid.antt =====
-- What the run queues of kernel/sched.c keep true: no queue overflows, `current_idx` is an index (0 in
-- an empty queue), a
-- task's `cpu` names the queue that holds it, and no task is held twice.
pub mod Keep
use aarch64_rtos.Prelude.{ℕ, ◌-◌, ◌≤◌, ◌<◌, ◌≡◌, ◌≢◌}
use aarch64_rtos.Kernel.{Kernel, Tcb, Runqueue, max_tasks, max_cpus}

pub record IsValidRq (tcbs : ℕ → Tcb) (c : ℕ) (rq : Runqueue) : Type 0 where
  pub few : rq.num_tasks ≤ max_tasks
  pub indexed : rq.current_idx ≤ rq.num_tasks - 1
  pub home : (i : ℕ) → i < rq.num_tasks → (tcbs (rq.tasks i)).cpu ≡ c
  pub distinct : (i j : ℕ) → i < rq.num_tasks → j < rq.num_tasks → rq.tasks i ≡ rq.tasks j → i ≡ j

abbrev pub IsValid : Kernel → Type 0
IsValid k = (c : ℕ) → c < max_cpus → IsValidRq k.tcbs c (k.runqueues c)

-- No run queue holds the task.
abbrev pub IsUnlisted : ℕ → Kernel → Type 0
IsUnlisted t k =
    (c i : ℕ) → c < max_cpus → i < (k.runqueues c).num_tasks → (k.runqueues c).tasks i ≢ t
