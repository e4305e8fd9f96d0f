-- ===== src/Sync/Queue/Laws.antt =====
-- The branches of `queue_send` and `queue_recv` of kernel/sync.c.
use aarch64_rtos.Prelude.{
  ℕ, ◌≤◌, ◌<◌, ◌≡◌, ◌⊎◌, some, none, ◌==◌, ltb, arith, Bool-cases, inl, inr, refl, update-update,
  update_self,
}
use aarch64_rtos.Kernel.{Kernel}
use aarch64_rtos.Lock.{irq_disable_save, irq_restore}
use aarch64_rtos.Sched.Run.{current, this_cpu}
use aarch64_rtos.Sched.Valid.{IsValidRq}
use aarch64_rtos.Sync.Block.{Progress, returns, Handover, give_up_lem}
use aarch64_rtos.Sync.Sem.Laws.{giving_up}
use aarch64_rtos.Sync.Mutex.{make_ready}
use aarch64_rtos.Sync.Queue.{Queue, queue_cap, wake_waiter, queue_block, queue_send, queue_recv}
use aarch64_rtos.Sync.Queue.Fifo.{with_item, without_first}

restored :
    (me w : ℕ) (k : Kernel)
    → irq_restore me (k.daif me) (wake_waiter w (irq_disable_save me k).1) ≡ wake_waiter w k
unfolding irq_restore irq_disable_save wake_waiter make_ready
restored me w k = elim (Bool-cases (w == 0)) [
  | inl z ↦ rw z (simp (update-update, update_self k.daif me))
  | inr n ↦ rw n (simp (update-update, update_self k.daif me))
]

module _ (me : ℕ) (q : Queue) (k : Kernel) (free : (k.runqueues (this_cpu me k).cpu_id).lock ≡ 0)
    (v : IsValidRq k.tcbs (this_cpu me k).cpu_id (k.runqueues (this_cpu me k).cpu_id)) where
  -- For a well-formed queue of tasks whose lock is free: while there is room, `queue_send` stores the
  -- item, makes a waiting receiver READY and comes back with the IRQ mask as it was. Else the task
  -- registers as the sender, BLOCKED, and the core goes on with a READY task or waits in place.
  pub queue_send_lem :
      (item : ℕ)
      → ((q.count < queue_cap)
          × (queue_send me q item k
              ≡ some (returns, with_item item q, wake_waiter q.recv_waiter k)))
        ⊎ ((queue_cap ≤ q.count)
            × ((out : Progress × Kernel) × (queue_send me q item k
                  ≡ some (out.0, record q { send_waiter = current me k }, out.1))
                × Handover me (k.daif me) (giving_up me k) out))
  unfolding queue_send queue_block irq_disable_save
  queue_send_lem item = elim (Bool-cases (ltb q.count queue_cap)) [
    | inl l ↦ inl (ground arith, rw (l, restored me q.recv_waiter k) refl)
    | inr n ↦
        let (out, e, h) = give_up_lem me (k.daif me) (irq_disable_save me k).1 free v in
        inr (ground arith, (out, rw (n, e) refl, h))
  ]

  -- The same for `queue_recv`: while there is an item, it takes the oldest one, makes a waiting sender
  -- READY and comes back with the item; else the task registers as the receiver, BLOCKED, and the core
  -- goes on with a READY task or waits in place.
  pub queue_recv_lem :
      ((0 < q.count)
        × (queue_recv me q k
            ≡ some (returns, some (q.buf q.head), without_first q, wake_waiter q.send_waiter k)))
      ⊎ ((q.count ≡ 0)
          × ((out : Progress × Kernel) × (queue_recv me q k
                ≡ some (out.0, none, record q { recv_waiter = current me k }, out.1))
              × Handover me (k.daif me) (giving_up me k) out))
  unfolding queue_recv queue_block irq_disable_save
  queue_recv_lem = elim (Bool-cases (ltb 0 q.count)) [
    | inl l ↦ inl (ground arith, rw (l, restored me q.send_waiter k) refl)
    | inr n ↦
        let (out, e, h) = give_up_lem me (k.daif me) (irq_disable_save me k).1 free v in
        inr (ground arith, (out, rw (n, e) refl, h))
  ]
