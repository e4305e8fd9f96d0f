-- ===== src/Sched/Locked.antt =====
-- The operations of `Sched.Run` (kernel/sched.c) where the lock of the queue is free.
use aarch64_rtos.Prelude.{
  ℕ, ◌+◌, ◌%◌, ◌^◌, ◌≡◌, refl, some, none, arith, ltb, if◌then◌else◌, update, update-at,
  update-update, update_self, Bool-cases, inl, inr, ap, sym, ◌∙◌,
}
use aarch64_rtos.Kernel.{Kernel, Tcb, Runqueue, ready, max_tasks}
use aarch64_rtos.Lock.{
  rq_lock_irqsave, rq_unlock_irqrestore, irq_disable_save, irq_restore, rq_lock, rq_unlock,
  spin_lock, spin_unlock,
}
use aarch64_rtos.Sched.Policy.{load_aware_select_next, resync}
use aarch64_rtos.Sched.Run.{
  sched_wake, set_tcb, set_rq, current, this_cpu, enlist, sched_register_on, pick_with,
  pick_next_ready,
}

free_rq :
    (rqs : ℕ → Runqueue) (c : ℕ)
    → (rqs c).lock ≡ 0
    → update rqs c (record (rqs c) { lock = 0 }) ≡ rqs
free_rq rqs c h = rw (← h) (update_self rqs c)

-- What a core sees inside the critical section of queue `c`.
unfoldable pub held : ℕ → ℕ → Kernel → Kernel
held me c k = (irq_disable_save me (set_rq c (record (k.runqueues c) { lock = 1 }) k)).1

pub lock_free :
    (me c : ℕ) (k : Kernel)
    → (k.runqueues c).lock ≡ 0
    → rq_lock_irqsave me c k ≡ some (k.daif me, held me c k)
unfolding held rq_lock_irqsave irq_disable_save rq_lock spin_lock
lock_free me c k h = rw h refl

pub ruleset locking = (update-at, update-update)

-- `sched_wake` marks the task READY, and changes nothing else.
pub sched_wake_lem :
    (me t : ℕ) (k : Kernel)
    → (k.runqueues (k.tcbs t).cpu).lock ≡ 0
    → sched_wake me t k ≡ some (set_tcb t (record (k.tcbs t) { state = ready }) k)
unfolding sched_wake held rq_unlock_irqrestore irq_disable_save irq_restore rq_unlock spin_unlock
sched_wake_lem me t k h =
    rw (lock_free me (k.tcbs t).cpu k h)
      (simp (locking, free_rq k.runqueues (k.tcbs t).cpu h, update_self k.daif me))

-- A full queue refuses the task; any other takes it in.
pub sched_register_on_lem :
    (me cpu t : ℕ) (k : Kernel)
    → (k.runqueues cpu).lock ≡ 0
    → sched_register_on me cpu t k
      ≡ some (if ltb (k.runqueues cpu).num_tasks max_tasks then enlist me cpu t k else k)
unfolding sched_register_on enlist held rq_unlock_irqrestore irq_disable_save irq_restore rq_unlock
    spin_unlock
sched_register_on_lem me cpu t k h = elim (Bool-cases (ltb (k.runqueues cpu).num_tasks max_tasks)) [
  | inl e ↦ rw (lock_free me cpu k h) (simp (locking, e, h, update_self k.daif me))
  | inr e ↦
      rw (lock_free me cpu k h)
        (simp (locking, e, free_rq k.runqueues cpu h, update_self k.daif me))
]

pub resync-lock :
    (curr l : ℕ) (rq : Runqueue)
    → resync curr (record rq { lock = l }) ≡ record (resync curr rq) { lock = l }
unfolding resync
resync-lock curr l rq = ground arith

-- The choice does not depend on the lock, and leaves it alone.
pub load_aware-lock :
    (tcbs : ℕ → Tcb) (curr l : ℕ) (rq : Runqueue)
    → let (n, rq') = load_aware_select_next tcbs curr rq in
      load_aware_select_next tcbs curr (record rq { lock = l }) ≡ (n, record rq' { lock = l })
unfolding load_aware_select_next
load_aware-lock tcbs curr l rq = ground (arith, resync-lock curr l rq)

pub same_lock :
    (tcbs : ℕ → Tcb) (curr : ℕ) (rq : Runqueue)
    → (load_aware_select_next tcbs curr rq).1.lock ≡ rq.lock
unfolding load_aware_select_next resync
same_lock tcbs curr rq = ground arith

pub zero_lock : (rq : Runqueue) → rq.lock ≡ 0 → record rq { lock = 0 } ≡ rq
zero_lock rq h = λ i. record rq { lock = sym h i }

-- `pick_next_ready` is the choice of the active policy on the calling core's queue.
pub pick_next_ready_lem :
    (me : ℕ) (k : Kernel)
    → (k.runqueues (this_cpu me k).cpu_id).lock ≡ 0
    → let c = (this_cpu me k).cpu_id in
      let (n, rq) = load_aware_select_next k.tcbs (current me k) (k.runqueues c) in
      pick_next_ready me k ≡ some (n, set_rq c rq k)
unfolding pick_next_ready pick_with held rq_unlock_irqrestore irq_disable_save irq_restore rq_unlock
    spin_unlock
pick_next_ready_lem me k h = rw (lock_free me (this_cpu me k).cpu_id k h) (
    simp
      (
        locking,
        load_aware-lock k.tcbs (current me k) 1 (k.runqueues (this_cpu me k).cpu_id),
        update_self k.daif me,
      )
      (ap (λ r. some (out.0, set_rq c r k)) (zero_lock out.1 (same_lock _ _ _ ∙ h))))
  where
    c : ℕ
    c = (this_cpu me k).cpu_id

    out : ℕ × Runqueue
    out = load_aware_select_next k.tcbs (current me k) (k.runqueues c)

-- A critical section that does nothing.
pub unlock-held :
    (me c : ℕ) (k : Kernel)
    → (k.runqueues c).lock ≡ 0
    → rq_unlock_irqrestore me c (k.daif me) (held me c k) ≡ k
unfolding held rq_unlock_irqrestore irq_disable_save irq_restore rq_unlock spin_unlock
unlock-held me c k h = simp (locking, free_rq k.runqueues c h, update_self k.daif me)
