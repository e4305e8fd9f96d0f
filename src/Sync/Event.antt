-- ===== src/Sync/Event.antt =====
-- `event_t` of kernel/sync.c and its operations, as core `me` executes them. There is no lock: the IRQ
-- mask makes a call one step for the tasks of that core, and other cores are taken to leave the event
-- alone meanwhile.
pub mod Awake
use Prim.Native.Nat.{bit_and, bit_or, bit_xor}
use aarch64_rtos.Prelude.{
  ℕ, ◌-◌, ◌^◌, ◌>>=◌, ◌&&◌, Bool, Option, none, some, ◌==◌, if◌then◌else◌, not,
}
use aarch64_rtos.Kernel.{Kernel}
use aarch64_rtos.Lock.{irq_disable_save, irq_restore}
use aarch64_rtos.Sched.Run.{current}
use aarch64_rtos.Sync.Block.{Progress, returns, mark_blocked, block_current_and_switch}
use aarch64_rtos.Sync.Mutex.{make_ready}

-- `flags`, `wait_mask` and `wake_result` are 32-bit words; `waiter` is a task pointer, 0 for none.
pub record Event : Type 0 where
  pub flags : ℕ
  pub waiter : ℕ
  pub wait_mask : ℕ
  pub wait_all : ℕ
  pub wake_result : ℕ

unfoldable pub event_init : Event
event_init = record { flags = 0; waiter = 0; wait_mask = 0; wait_all = 0; wake_result = 0 }

unfoldable pub event_satisfied : Event → Bool
event_satisfied e =
    if e.wait_all == 0
    then not (bit_and e.flags e.wait_mask == 0)
    else bit_and e.flags e.wait_mask == e.wait_mask

-- `e->flags |= bits`
abbrev pub raised : ℕ → Event → Event
raised bits e = record e { flags = bit_or e.flags bits }

unfoldable pub event_set : ℕ → Event → ℕ → Kernel → Event × Kernel
event_set me e bits k =
    let (f, k1) = irq_disable_save me k in
    let e1 = raised bits e in
    if not (e1.waiter == 0) && event_satisfied e1
    then (
      record e1 { waiter = 0; wake_result = bit_and e1.flags e1.wait_mask },
      irq_restore me f (make_ready e1.waiter k1),
    )
    else (e1, irq_restore me f k1)

-- `~bits` of a 32-bit word
abbrev pub complement : ℕ → ℕ
complement bits = bit_xor bits (2 ^ 32 - 1)

unfoldable pub event_clear : ℕ → Event → ℕ → Kernel → Event × Kernel
event_clear me e bits k =
    let (f, k1) = irq_disable_save me k in
    (record e { flags = bit_and e.flags (complement bits) }, irq_restore me f k1)

-- The result is `none` when the task blocks: it comes back with `wake_result` when it runs again.
unfoldable pub event_wait :
    ℕ → Event → ℕ → ℕ → Kernel → Option (Progress × Option ℕ × Event × Kernel)
event_wait me e mask wait_all k =
    let (f, k1) = irq_disable_save me k in
    let e1 = record e { wait_mask = mask; wait_all = wait_all } in
    let blocks = block_current_and_switch me f (mark_blocked me k1) in
    if event_satisfied e1
    then some (returns, some (bit_and e1.flags mask), e1, irq_restore me f k1)
    else (blocks >>= λ (p, k2). some (p, none, record e1 { waiter = current me k1 }, k2))
