-- ===== src/Sched/Migrate.antt =====
-- `sched_migrate` of kernel/sched.c: a READY task goes from its home queue to another core's.
pub mod Queues
pub mod Keep
pub mod Moves
pub mod Locked
pub mod Total
pub mod Ends
use aarch64_rtos.Prelude.{
  ℕ, ◌+◌, ◌-◌, ◌%◌, ◌^◌, ◌>>=◌, ◌&&◌, ◌||◌, not, Bool, true, false, Option, none, some, List, [],
  ◌∷◌, ◌==◌, ltb, leb, if◌then◌else◌, update, codes,
}
use aarch64_rtos.Kernel.{Kernel, Runqueue, max_tasks, ready}
use aarch64_rtos.Lock.{rq_lock_irqsave, rq_unlock_irqrestore, rq_lock, rq_unlock}
use aarch64_rtos.Uart.{klog}
use aarch64_rtos.Sched.Scan.{find_slot}
use aarch64_rtos.Sched.Run.{set_tcb, set_rq}

-- The last task of the source takes the place of the one that leaves.
unfoldable pub remove_slot : ℕ → Runqueue → Runqueue
remove_slot idx src =
    let n = src.num_tasks - 1 in
    record src {
      tasks = update src.tasks idx (src.tasks (src.num_tasks - 1));
      num_tasks = n;
      current_idx = (if leb n src.current_idx then 0 else src.current_idx);
    }

unfoldable pub append_task : ℕ → Runqueue → Runqueue
append_task t dst = record dst {
  tasks = update dst.tasks dst.num_tasks t;
  num_tasks = dst.num_tasks + 1;
}

-- The task in slot `idx` of `src` moves to the end of `dst`.
unfoldable pub transfer : ℕ → ℕ → ℕ → ℕ → Kernel → Kernel
transfer src dst idx t k =
    let k1 = set_rq src (remove_slot idx (k.runqueues src)) k in
    let k2 = set_rq dst (append_task t (k1.runqueues dst)) k1 in
    set_tcb t (record (k2.tcbs t) { cpu = dst % 2 ^ 32 }) k2

-- `t->state == 0 && t != cpu_locals[src_cpu].curr`
abbrev pub may_move : ℕ → ℕ → Kernel → Bool
may_move src t k = (k.tcbs t).state == ready && not (t == (k.cpu_locals src).curr)

-- What `sched_migrate` does while it holds both locks; the flag is `ok`.
unfoldable pub migrate_locked : ℕ → ℕ → ℕ → Kernel → Bool × Kernel
migrate_locked src dst t k =
    if may_move src t k
    then elim (find_slot (k.runqueues src).tasks t (k.runqueues src).num_tasks 0) [
      | none ↦ (false, k)
      | some idx ↦
          if ltb (k.runqueues dst).num_tasks max_tasks
          then (true, transfer src dst idx t k)
          else (false, k)
    ]
    else (false, k)

abbrev pub crlf : List ℕ
crlf = 13 ∷ 10 ∷ []

unfoldable pub log_migration : ℕ → ℕ → ℕ → Kernel → Option Kernel
log_migration me src dst k = do
  k1 ← klog me (codes "LB: migrated task, src=") src true [] k
  klog me (codes " dst=") dst true crlf k1

abbrev pub lower : ℕ → ℕ → ℕ
lower a b = if ltb a b then a else b

abbrev pub upper : ℕ → ℕ → ℕ
upper a b = if ltb a b then b else a

-- The lower queue's lock first, with the IRQ masked; the other one nested.
unfoldable pub lock_pair : ℕ → ℕ → ℕ → Kernel → Option (ℕ × Kernel)
lock_pair me lo hi k = do (f, k1) ← rq_lock_irqsave me lo k; k2 ← rq_lock hi k1; some (f, k2)

unfoldable pub unlock_pair : ℕ → ℕ → ℕ → ℕ → Kernel → Kernel
unlock_pair me lo hi f k = rq_unlock_irqrestore me lo f (rq_unlock hi k)

-- The line that a migration prints, once the locks are free.
unfoldable pub report : ℕ → ℕ → ℕ → Bool × Kernel → Option (Bool × Kernel)
report me src dst (false, k) = some (false, k)
report me src dst (true, k) = do k1 ← log_migration me src dst k; some (true, k1)

-- `true` stands for the result 0, `false` for -1.
unfoldable pub sched_migrate : ℕ → ℕ → ℕ → Kernel → Option (Bool × Kernel)
sched_migrate me t dst k =
    let src = (k.tcbs t).cpu in
    let lo = lower src dst in
    let hi = upper src dst in
    let go = lock_pair me lo hi k >>= λ (f, k2).
    let (ok, k3) = migrate_locked src dst t k2 in
    report me src dst (ok, unlock_pair me lo hi f k3) in
    if dst == src || dst == 0 then some (false, k) else go
