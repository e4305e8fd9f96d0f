-- ===== src/Sync/Sem/Laws.antt =====
-- What `sem_wait` and `sem_post` do on each branch.
use aarch64_rtos.Prelude.{
  ℕ, ◌+◌, ◌-◌, ◌%◌, ◌^◌, ◌≡◌, ◌≢◌, true, false, some, ◌==◌, if◌then◌else◌, Bool-cases, ==→ne, inl,
  inr, update, update-update, update_self,
}
use aarch64_rtos.Kernel.{Kernel, ready}
use aarch64_rtos.Lock.{spin_lock, spin_unlock, irq_disable_save, irq_restore, mask_irq}
use aarch64_rtos.Sched.Run.{current, set_tcb, this_cpu}
use aarch64_rtos.Sched.Locked.{sched_wake_lem}
use aarch64_rtos.Sched.Valid.{IsValidRq}
use aarch64_rtos.Sync.Block.{Progress, returns, mark_blocked, Handover, give_up_lem}
use aarch64_rtos.Sync.Sem.{
  Sem, is_positive, sem_lock_irqsave, sem_block, sem_wait, sem_signal, sem_post,
}

-- The semaphore after a post: the waiter takes the token, or the count keeps it.
unfoldable pub posted : Sem → Sem
posted s =
    if s.waiter == 0 then record s { count = (s.count + 1) % 2 ^ 32 } else record s { waiter = 0 }

-- The waiter, if there is one, is READY after a post.
unfoldable pub woken : Sem → Kernel → Kernel
woken s k =
    if s.waiter == 0 then k else set_tcb s.waiter (record (k.tcbs s.waiter) { state = ready }) k

-- With the semaphore's lock free, and the lock of the waiter's queue, `sem_post` comes back: it hands
-- the token to the waiter, which becomes READY, and else adds it to the count; both locks are free
-- afterwards, and the IRQ mask is as it was.
pub sem_post_lem :
    (me : ℕ) (s : Sem) (k : Kernel)
    → s.lock ≡ 0
    → (s.waiter ≢ 0 → (k.runqueues (k.tcbs s.waiter).cpu).lock ≡ 0)
    → sem_post me s k ≡ some (posted s, woken s k)
unfolding sem_post sem_signal posted woken sem_lock_irqsave spin_lock spin_unlock irq_disable_save
    irq_restore
sem_post_lem me s k h free = elim (Bool-cases (s.waiter == 0)) [
  | inl e ↦ rw (h, e) (simp (update-update, update_self k.daif me))
  | inr e ↦
      let wake = sched_wake_lem me s.waiter (irq_disable_save me k).1 (free (==→ne _ _ e)) in
      rw (h, e, wake) (simp (update-update, update_self k.daif me))
]

-- With the count positive and the lock free, `sem_wait` takes one from the count and comes back.
pub sem_wait-positive :
    (me : ℕ) (s : Sem) (k : Kernel)
    → s.lock ≡ 0
    → is_positive s.count ≡ true
    → sem_wait me s k ≡ some (returns, record s { count = s.count - 1 }, k)
unfolding sem_wait sem_lock_irqsave spin_lock spin_unlock irq_disable_save irq_restore
sem_wait-positive me s k h p = rw (h, p) (simp (update-update, update_self k.daif me))

-- The state in which the waiting task gives up its core: it is BLOCKED, and the IRQ is masked.
abbrev pub giving_up : ℕ → Kernel → Kernel
giving_up me k = mark_blocked me (record k { daif = update k.daif me (mask_irq (k.daif me)) })

-- With the count not positive, `sem_wait` does not come back at once: the semaphore, its lock free
-- again, has the task as its waiter, and the core goes on with a READY task of its queue or, if the
-- queue has none, waits in place.
pub sem_wait-blocks :
    (me : ℕ) (s : Sem) (k : Kernel)
    → s.lock ≡ 0
    → is_positive s.count ≡ false
    → (k.runqueues (this_cpu me k).cpu_id).lock ≡ 0
    → IsValidRq k.tcbs (this_cpu me k).cpu_id (k.runqueues (this_cpu me k).cpu_id)
    → (out : Progress × Kernel) × (sem_wait me s k
        ≡ some (out.0, record s { waiter = current me k }, out.1))
      × Handover me (k.daif me) (giving_up me k) out
unfolding sem_wait sem_block sem_lock_irqsave spin_lock spin_unlock irq_disable_save
sem_wait-blocks me s k h p free v =
    let (out, e, g) =
      give_up_lem me (k.daif me) (record k { daif = update k.daif me (mask_irq (k.daif me)) }) free
        v in
    (out, rw (h, p, e), g)
