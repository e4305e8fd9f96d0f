-- ===== src/Lock.antt =====
-- kernel/spinlock.h and the IRQ mask helpers that kernel/sched.c, kernel/sync.c, kernel/uart.c and
-- kernel/main.c each define, as one core executes them while the other cores stand still. A lock
-- that is held then is never released, so taking it is `none`.
pub mod Cores
use aarch64_rtos.Prelude.{ℕ, ◌+◌, ◌/◌, ◌%◌, ◌>>=◌, Option, none, some, ◌==◌, if◌then◌else◌, update}
use aarch64_rtos.Kernel.{Kernel}

-- `msr daifset, #2` sets bit 7 of DAIF, the IRQ mask.
unfoldable pub mask_irq : ℕ → ℕ
mask_irq d = if d / 128 % 2 == 0 then d + 128 else d

unfoldable pub irq_disable_save : ℕ → Kernel → ℕ × Kernel
irq_disable_save me k = (k.daif me, record k { daif = update k.daif me (mask_irq (k.daif me)) })

unfoldable pub irq_restore : ℕ → ℕ → Kernel → Kernel
irq_restore me flags k = record k { daif = update k.daif me flags }

unfoldable pub spin_lock : ℕ → Option ℕ
spin_lock locked = if locked == 0 then some 1 else none

unfoldable pub spin_unlock : ℕ → ℕ
spin_unlock locked = 0

-- `spin_lock(&runqueues[c].lock)`
unfoldable pub rq_lock : ℕ → Kernel → Option Kernel
rq_lock c k = do
  l ← spin_lock (k.runqueues c).lock
  some (record k { runqueues = update k.runqueues c (record (k.runqueues c) { lock = l }) })

unfoldable pub rq_unlock : ℕ → Kernel → Kernel
rq_unlock c k =
    let rq = k.runqueues c in
    record k { runqueues = update k.runqueues c (record rq { lock = spin_unlock rq.lock }) }

-- `spin_lock_irqsave(&runqueues[c].lock)` on core `me`, and its inverse
unfoldable pub rq_lock_irqsave : ℕ → ℕ → Kernel → Option (ℕ × Kernel)
rq_lock_irqsave me c k = let (f, k1) = irq_disable_save me k in do k2 ← rq_lock c k1; some (f, k2)

unfoldable pub rq_unlock_irqrestore : ℕ → ℕ → ℕ → Kernel → Kernel
rq_unlock_irqrestore me c f k = irq_restore me f (rq_unlock c k)
