-- ===== src/Sync/Mutex.antt =====
-- `mutex_t` of kernel/sync.c and its operations, as core `me` executes them. There is no lock: the
-- IRQ mask alone guards the fields, so a call is one step for the tasks of that core, and other cores
-- are taken to leave the mutex alone meanwhile.
pub mod Exclusion
use aarch64_rtos.Prelude.{ℕ, ◌>>=◌, Option, some, ◌==◌, if◌then◌else◌}
use aarch64_rtos.Kernel.{Kernel, ready}
use aarch64_rtos.Lock.{irq_disable_save, irq_restore}
use aarch64_rtos.Sched.Run.{current, set_tcb}
use aarch64_rtos.Sync.Block.{Progress, returns, mark_blocked, block_current_and_switch}

-- `owner` and `waiter` are task pointers, 0 for none.
pub record Mutex : Type 0 where
  pub locked : ℕ
  pub owner : ℕ
  pub waiter : ℕ

unfoldable pub mutex_init : Mutex
mutex_init = record { locked = 0; owner = 0; waiter = 0 }

unfoldable pub mutex_block : ℕ → ℕ → Mutex → Kernel → Option (Progress × Mutex × Kernel)
mutex_block me flags m k = do
  (p, k1) ← block_current_and_switch me flags (mark_blocked me k)
  some (p, record m { waiter = current me k }, k1)

unfoldable pub mutex_lock : ℕ → Mutex → Kernel → Option (Progress × Mutex × Kernel)
mutex_lock me m k =
    let (flags, k1) = irq_disable_save me k in
    let blocks = mutex_block me flags m k1 in
    if m.locked == 0
    then some (returns, record m { locked = 1; owner = current me k1 }, irq_restore me flags k1)
    else blocks

-- `w->state = 0`, for a task `w` that waits
unfoldable pub make_ready : ℕ → Kernel → Kernel
make_ready w k = set_tcb w (record (k.tcbs w) { state = ready }) k

unfoldable pub mutex_unlock : ℕ → Mutex → Kernel → Mutex × Kernel
mutex_unlock me m k =
    let (flags, k1) = irq_disable_save me k in
    if m.waiter == 0
    then (record m { locked = 0; owner = 0 }, irq_restore me flags k1)
    else (record m { waiter = 0; owner = m.waiter }, irq_restore me flags (make_ready m.waiter k1))
