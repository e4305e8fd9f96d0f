-- ===== src/Sync/Sem.antt =====
-- `sem_t` of kernel/sync.h and its operations in kernel/sync.c, as core `me` executes them.
pub mod Laws
pub mod Tokens
use aarch64_rtos.Prelude.{
  ℕ, ◌+◌, ◌-◌, ◌%◌, ◌^◌, ◌>>=◌, ◌&&◌, Bool, Option, some, ◌==◌, ltb, if◌then◌else◌, not,
}
use aarch64_rtos.Kernel.{Kernel}
use aarch64_rtos.Lock.{spin_lock, spin_unlock, irq_disable_save, irq_restore}
use aarch64_rtos.Sched.Run.{current, sched_wake}
use aarch64_rtos.Sync.Block.{Progress, returns, mark_blocked, block_current_and_switch}

-- `count` is the bit pattern of an `int`; `waiter` is a task pointer, 0 for none.
pub record Sem : Type 0 where
  pub count : ℕ
  pub waiter : ℕ
  pub lock : ℕ

-- `c > 0` for an `int`
abbrev pub is_positive : ℕ → Bool
is_positive c = ltb 0 c && ltb c (2 ^ 31)

unfoldable pub sem_init : ℕ → Sem
sem_init initial_count = record { count = initial_count; waiter = 0; lock = 0 }

-- `spin_lock_irqsave(&s->lock)` and its inverse
unfoldable pub sem_lock_irqsave : ℕ → Sem → Kernel → Option (ℕ × Sem × Kernel)
sem_lock_irqsave me s k =
    let (f, k1) = irq_disable_save me k in
    do l ← spin_lock s.lock; some (f, record s { lock = l }, k1)

abbrev pub unlocked : Sem → Sem
unlocked s = record s { lock = spin_unlock s.lock }

-- The task registers itself and gives up the core; the IRQ stays masked in between.
unfoldable pub sem_block : ℕ → ℕ → Sem → Kernel → Option (Progress × Sem × Kernel)
sem_block me flags s k = do
  let s1 = record s { waiter = current me k }
  (p, k1) ← block_current_and_switch me flags (mark_blocked me k)
  some (p, unlocked s1, k1)

unfoldable pub sem_wait : ℕ → Sem → Kernel → Option (Progress × Sem × Kernel)
sem_wait me s k = do
  (flags, s1, k1) ← sem_lock_irqsave me s k
  let taken = unlocked (record s1 { count = s1.count - 1 })
  let blocks = sem_block me flags s1 k1
  if is_positive s1.count then some (returns, taken, irq_restore me flags k1) else blocks

-- `if (s->waiter) …; else s->count++;`
unfoldable pub sem_signal : ℕ → Sem → Kernel → Option (Sem × Kernel)
sem_signal me s k =
    if s.waiter == 0
    then some (record s { count = (s.count + 1) % 2 ^ 32 }, k)
    else (sched_wake me s.waiter k >>= λ k1. some (record s { waiter = 0 }, k1))

unfoldable pub sem_post : ℕ → Sem → Kernel → Option (Sem × Kernel)
sem_post me s k = do
  (flags, s1, k1) ← sem_lock_irqsave me s k
  (s2, k2) ← sem_signal me s1 k1
  some (unlocked s2, irq_restore me flags k2)
