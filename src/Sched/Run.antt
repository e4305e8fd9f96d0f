-- ===== src/Sched/Run.antt =====
-- The operations of kernel/sched.c on one run queue, as core `me` executes them: registration, the
-- choice of the next task, the wake-up, the tick, and the accessors for debugging.
use aarch64_rtos.Prelude.{
  ℕ, ◌+◌, ◌%◌, ◌^◌, ◌>>=◌, ◌&&◌, Option, none, some, ◌==◌, ltb, if◌then◌else◌, update,
}
use aarch64_rtos.Kernel.{Kernel, Tcb, Runqueue, CpuLocal, max_tasks, ready}
use aarch64_rtos.Lock.{rq_lock_irqsave, rq_unlock_irqrestore}
use aarch64_rtos.Sched.Scan.{find_slot}
use aarch64_rtos.Sched.Policy.{active_policy, SchedPolicy}

-- `this_cpu()`: TPIDR_EL1 of core `me` points at `cpu_locals[me]` from `percpu_init` on.
abbrev pub this_cpu : ℕ → Kernel → CpuLocal
this_cpu me k = k.cpu_locals me

-- `current`
abbrev pub current : ℕ → Kernel → ℕ
current me k = (this_cpu me k).curr

abbrev pub set_current : ℕ → ℕ → Kernel → Kernel
set_current me t k = record k {
  cpu_locals = update k.cpu_locals me (record (k.cpu_locals me) { curr = t });
}

abbrev pub set_rq : ℕ → Runqueue → Kernel → Kernel
set_rq c rq k = record k { runqueues = update k.runqueues c rq }

abbrev pub set_tcb : ℕ → Tcb → Kernel → Kernel
set_tcb t b k = record k { tcbs = update k.tcbs t b }

-- The body of the `if` of `sched_register_on`.
unfoldable pub enlist : ℕ → ℕ → ℕ → Kernel → Kernel
enlist me cpu t k =
    let rq = k.runqueues cpu in
    set_rq cpu
      (record rq {
        tasks = update rq.tasks rq.num_tasks t;
        current_idx =
            (if cpu == (this_cpu me k).cpu_id && t == current me k
              then rq.num_tasks
              else rq.current_idx);
        num_tasks = rq.num_tasks + 1;
      })
      (set_tcb t (record (k.tcbs t) { cpu = cpu % 2 ^ 32 }) k)

unfoldable pub sched_register_on : ℕ → ℕ → ℕ → Kernel → Option Kernel
sched_register_on me cpu t k = do
  (f, k1) ← rq_lock_irqsave me cpu k
  let k2 = if ltb (k1.runqueues cpu).num_tasks max_tasks then enlist me cpu t k1 else k1
  some (rq_unlock_irqrestore me cpu f k2)

unfoldable pub sched_register : ℕ → ℕ → Kernel → Option Kernel
sched_register me t k = sched_register_on me (this_cpu me k).cpu_id t k

-- `pick_next_ready`, with the policy as an argument
unfoldable pub pick_with : SchedPolicy → ℕ → Kernel → Option (ℕ × Kernel)
pick_with policy me k = do
  let c = (this_cpu me k).cpu_id
  (f, k1) ← rq_lock_irqsave me c k
  let (n, rq) = policy.select_next k1.tcbs (current me k1) (k1.runqueues c)
  some (n, rq_unlock_irqrestore me c f (set_rq c rq k1))

unfoldable pub pick_next_ready : ℕ → Kernel → Option (ℕ × Kernel)
pick_next_ready me k = pick_with active_policy me k

-- The final `dsb sy; sev` has no effect on this state.
unfoldable pub sched_wake : ℕ → ℕ → Kernel → Option Kernel
sched_wake me t k = do
  let c = (k.tcbs t).cpu
  (f, k1) ← rq_lock_irqsave me c k
  some (rq_unlock_irqrestore me c f (set_tcb t (record (k1.tcbs t) { state = ready }) k1))

unfoldable pub sched_on_tick : ℕ → Kernel → Kernel
sched_on_tick me k = elim active_policy.on_tick [
  | none ↦ k
  | some tick ↦ set_tcb (current me k) (tick (k.tcbs (current me k))) k
]

-- `sched_debug_select_count_for`: the count of the slot that holds `t`, 0 where none does.
unfoldable pub sched_debug_select_count_for : ℕ → ℕ → Kernel → ℕ
sched_debug_select_count_for cpu t k =
    let rq = k.runqueues cpu in
    elim (find_slot rq.tasks t rq.num_tasks 0) [ some i ↦ rq.select_count i | none ↦ 0 ]
