-- ===== src/Sched/Yield.antt =====
-- `yield` of kernel/sched.c: a task gives up its core without blocking. The call stops where the task
-- stops, at `switch_to`.
use aarch64_rtos.Prelude.{
  ℕ, ◌>>=◌, ◌≡◌, ◌≢◌, Option, some, ◌==◌, if◌then◌else◌, arith, inl, inr, ne→==, eq→==, ℕ_discrete,
}
use aarch64_rtos.Kernel.{Kernel, Runqueue, ready}
use aarch64_rtos.Lock.{irq_disable_save, irq_restore}
use aarch64_rtos.Sched.Policy.{load_aware_select_next}
use aarch64_rtos.Sched.Policy.Choice.{AllBlocked, load_aware_select_next_lem}
use aarch64_rtos.Sched.Valid.{IsValidRq}
use aarch64_rtos.Sched.Run.{pick_next_ready, current, set_current, set_rq, this_cpu}
use aarch64_rtos.Sched.Locked.{pick_next_ready_lem}
use aarch64_rtos.Sync.Block.{Progress, returns, switches}

-- `if (next != current) { … checked_switch_to(…); } irq_restore(flags);`
unfoldable pub go_on : ℕ → ℕ → ℕ → Kernel → Progress × Kernel
go_on me flags next k =
    if next == current me k
    then (returns, irq_restore me flags k)
    else (switches (current me k) next flags, set_current me next k)

unfoldable pub yield : ℕ → Kernel → Option (Progress × Kernel)
yield me k =
    let (flags, k1) = irq_disable_save me k in
    do (next, k2) ← pick_next_ready me k1; some (go_on me flags next k2)

-- The core goes on with a READY task, or the call comes back: to a READY task, or because no task of
-- the queue is READY.
pub data Yielded (me : ℕ) (k : Kernel) : Progress × Kernel → Type 0 where
  to_next :
      (next : ℕ) (rq : Runqueue)
      → next ≢ current me k
      → (k.tcbs next).state ≡ ready
      → Yielded me k (
        switches (current me k) next (k.daif me),
        set_current me next (set_rq (this_cpu me k).cpu_id rq (irq_disable_save me k).1),
      )
  chosen :
      (rq : Runqueue)
      → (k.tcbs (current me k)).state ≡ ready
      → Yielded me k (
        returns,
        irq_restore me (k.daif me) (set_rq (this_cpu me k).cpu_id rq (irq_disable_save me k).1),
      )
  alone :
      (rq : Runqueue)
      → AllBlocked k.tcbs (k.runqueues (this_cpu me k).cpu_id)
      → Yielded me k (
        returns,
        irq_restore me (k.daif me) (set_rq (this_cpu me k).cpu_id rq (irq_disable_save me k).1),
      )

-- With the lock of its well-formed queue free, a task that yields gives its core to another READY
-- task, its own state as it was, or goes on itself: as the choice among the READY tasks, or because
-- the queue has none.
pub yield_lem :
    (me : ℕ) (k : Kernel)
    → (k.runqueues (this_cpu me k).cpu_id).lock ≡ 0
    → IsValidRq k.tcbs (this_cpu me k).cpu_id (k.runqueues (this_cpu me k).cpu_id)
    → (out : Progress × Kernel) × (yield me k ≡ some out) × Yielded me k out
unfolding yield go_on irq_disable_save
yield_lem me k h v = (
  go_on me (k.daif me) out.0 (set_rq c out.1 masked),
  rw (pick_next_ready_lem me masked h),
  yielded,
)
  where
    masked : Kernel
    masked = (irq_disable_save me k).1

    c : ℕ
    c = (this_cpu me k).cpu_id

    out : ℕ × Runqueue
    out = load_aware_select_next k.tcbs (current me k) (k.runqueues c)

    yielded : Yielded me k (go_on me (k.daif me) out.0 (set_rq c out.1 masked))
    yielded =
        elim (load_aware_select_next_lem k.tcbs (current me k) (k.runqueues c)
          (λ pos. omega (arith, v.indexed))) [
            | inl (idx, t, f) ↦ elim (ℕ_discrete out.0 (current me k)) [
              | yes e ↦
                  rw (eq→== out.0 (current me k) e, go_on) (chosen out.1 (rw e at t.is_ready_task))
              | no ne ↦
                  rw (ne→== out.0 (current me k) ne, go_on) (to_next out.0 out.1 ne t.is_ready_task)
            ]
            | inr (all, s, u) ↦ rw (eq→== out.0 (current me k) s, go_on) (alone out.1 all)
          ]
