-- ===== src/Sync/Queue.antt =====
-- `queue_t` of kernel/sync.c, the message queue of four slots, as core `me` executes its operations.
-- A round of `while (1)` is one call here: a task that blocks starts with the next round, which is
-- the same call again, when it runs again (`block_current_and_switch` never comes straight back). There
-- is no lock: the IRQ mask makes a call one step for the tasks of that core, and other cores are taken
-- to leave the queue alone meanwhile.
pub mod Contents
pub mod Fifo
pub mod Laws
use aarch64_rtos.Prelude.{
  ℕ, ◌+◌, ◌-◌, ◌%◌, ◌>>=◌, Option, none, some, ◌==◌, ltb, if◌then◌else◌, update,
}
use aarch64_rtos.Kernel.{Kernel}
use aarch64_rtos.Lock.{irq_disable_save, irq_restore}
use aarch64_rtos.Sched.Run.{current}
use aarch64_rtos.Sync.Block.{Progress, returns, mark_blocked, block_current_and_switch}
use aarch64_rtos.Sync.Mutex.{make_ready}

abbrev pub queue_cap : ℕ
queue_cap = 4

-- The waiters are task pointers, 0 for none.
pub record Queue : Type 0 where
  pub buf : ℕ → ℕ
  pub head : ℕ
  pub tail : ℕ
  pub count : ℕ
  pub send_waiter : ℕ
  pub recv_waiter : ℕ

-- `junk` is what the memory of the queue held before.
unfoldable pub queue_init : Queue → Queue
queue_init junk = record junk { head = 0; tail = 0; count = 0; send_waiter = 0; recv_waiter = 0 }

-- `if (waiter) { waiter = 0; w->state = 0; }`, for the kernel
unfoldable pub wake_waiter : ℕ → Kernel → Kernel
wake_waiter w k = if w == 0 then k else make_ready w k

-- The task blocks, as the sender or as the receiver.
unfoldable pub queue_block : ℕ → ℕ → Queue → Kernel → Option (Progress × Queue × Kernel)
queue_block me flags q k = do
  (p, k1) ← block_current_and_switch me flags (mark_blocked me k)
  some (p, q, k1)

unfoldable pub queue_send : ℕ → Queue → ℕ → Kernel → Option (Progress × Queue × Kernel)
queue_send me q item k =
    let (flags, k1) = irq_disable_save me k in
    let blocks = queue_block me flags (record q { send_waiter = current me k1 }) k1 in
    let sent = record q {
      buf = update q.buf q.tail item;
      tail = (q.tail + 1) % queue_cap;
      count = q.count + 1;
      recv_waiter = 0;
    } in
    if ltb q.count queue_cap
    then some (returns, sent, irq_restore me flags (wake_waiter q.recv_waiter k1))
    else blocks

-- The item is `none` when the task blocks.
unfoldable pub queue_recv : ℕ → Queue → Kernel → Option (Progress × Option ℕ × Queue × Kernel)
queue_recv me q k =
    let (flags, k1) = irq_disable_save me k in
    let blocks = queue_block me flags (record q { recv_waiter = current me k1 }) k1 in
    let received = record q {
      head = (q.head + 1) % queue_cap;
      count = q.count - 1;
      send_waiter = 0;
    } in
    if ltb 0 q.count
    then some (
      returns,
      some (q.buf q.head),
      received,
      irq_restore me flags (wake_waiter q.send_waiter k1),
    )
    else (blocks >>= λ (p, q1, k2). some (p, none, q1, k2))
