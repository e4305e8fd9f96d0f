-- ===== src/Sync/Block.antt =====
-- `block_current_and_switch` of kernel/sync.c: how a task that has marked itself BLOCKED gives up its
-- core. The call stops where the task stops: the rest runs when the task runs again.
use aarch64_rtos.Prelude.{
  update, update-at, ℕ, ◌>>=◌, ◌≡◌, ◌≢◌, Option, some, ◌==◌, if◌then◌else◌, arith, refl, inl, inr,
  ne→==, eq→==, ap,
}
use aarch64_rtos.Kernel.{Kernel, Tcb, Runqueue, ready, blocked}
use aarch64_rtos.Lock.{
  irq_restore, irq_disable_save, rq_lock, rq_unlock, rq_lock_irqsave, rq_unlock_irqrestore,
}
use aarch64_rtos.Sched.Policy.{load_aware_select_next}
use aarch64_rtos.Sched.Policy.Choice.{AllBlocked, load_aware_select_next_lem}
use aarch64_rtos.Sched.Valid.{IsValidRq}
use aarch64_rtos.Sched.Valid.Keep.{IsValidRq-set_tcb}
use aarch64_rtos.Sched.Run.{
  pick_with, pick_next_ready, current, set_current, set_tcb, set_rq, this_cpu,
}
use aarch64_rtos.Sched.Locked.{pick_next_ready_lem}

-- Where a call stands: it has come back; its task waits in `wfe` for its own wake-up, with the IRQ
-- mask of the caller; or the core goes on with `next` by `switch_to(&prev->sp, next->sp)`, and the
-- task has `irq_restore(flags)` to do when it runs again.
pub data Progress : Type 0 where
  returns : Progress
  idles : Progress
  switches : (prev next flags : ℕ) → Progress

-- `while (current->state != 0) wfe;`, at its first test
abbrev pub idle_loop : ℕ → Kernel → Progress
idle_loop me k = if (k.tcbs (current me k)).state == ready then returns else idles

-- What follows the choice of `next`, which left the state `k`.
unfoldable pub hand_over : ℕ → ℕ → ℕ → Kernel → Progress × Kernel
hand_over me flags next k =
    let stay = irq_restore me flags k in
    if next == current me k
    then (idle_loop me stay, stay)
    else (switches (current me k) next flags, set_current me next k)

unfoldable pub block_current_and_switch : ℕ → ℕ → Kernel → Option (Progress × Kernel)
block_current_and_switch me flags k = do
  (next, k1) ← pick_next_ready me k
  some (hand_over me flags next k1)

-- `current->state = 1`
abbrev pub mark_blocked : ℕ → Kernel → Kernel
mark_blocked me k = set_tcb (current me k) (record (k.tcbs (current me k)) { state = blocked }) k

-- What the core does instead, once its current task is BLOCKED: it goes on with a READY task of its
-- queue, or stays because the queue has none.
pub data Handover (me flags : ℕ) (k : Kernel) : Progress × Kernel → Type 0 where
  to_next :
      (next : ℕ) (rq : Runqueue)
      → next ≢ current me k
      → (k.tcbs next).state ≡ ready
      → (next, rq)
        ≡ load_aware_select_next k.tcbs (current me k) (k.runqueues (this_cpu me k).cpu_id)
      → Handover me flags k (
        switches (current me k) next flags,
        set_current me next (set_rq (this_cpu me k).cpu_id rq k),
      )
  stays :
      (rq : Runqueue)
      → AllBlocked k.tcbs (k.runqueues (this_cpu me k).cpu_id)
      → Handover me flags k (idles, irq_restore me flags (set_rq (this_cpu me k).cpu_id rq k))

-- A task that is BLOCKED never comes back from the call at once: the core goes on with a READY task,
-- or, if its queue has none, the task waits for its wake-up.
pub block_current_and_switch_lem :
    (me flags : ℕ) (k : Kernel)
    → (k.runqueues (this_cpu me k).cpu_id).lock ≡ 0
    → IsValidRq k.tcbs (this_cpu me k).cpu_id (k.runqueues (this_cpu me k).cpu_id)
    → (k.tcbs (current me k)).state ≡ blocked
    → (out : Progress × Kernel) × (block_current_and_switch me flags k ≡ some out)
      × Handover me flags k out
unfolding block_current_and_switch hand_over irq_restore
block_current_and_switch_lem me flags k h v b =
    (hand_over me flags out.0 (set_rq c out.1 k), rw (pick_next_ready_lem me k h), handed)
  where
    c : ℕ
    c = (this_cpu me k).cpu_id

    out : ℕ × Runqueue
    out = load_aware_select_next k.tcbs (current me k) (k.runqueues c)

    handed : Handover me flags k (hand_over me flags out.0 (set_rq c out.1 k))
    handed =
        elim (load_aware_select_next_lem k.tcbs (current me k) (k.runqueues c)
          (λ pos. omega (arith, v.indexed))) [
            | inl (idx, t, f) ↦
                let ne : out.0 ≢ current me k =
                  λ e. cc (ap (λ u. (k.tcbs u).state) e, t.is_ready_task, b) in
                rw (ne→== out.0 (current me k) ne, hand_over)
                  (to_next out.0 out.1 ne t.is_ready_task refl)
            | inr (all, s, u) ↦
                rw (eq→== out.0 (current me k) s, hand_over) (rw b (stays out.1 all))
          ]

-- The same for the current task as the primitives call it: they mark it BLOCKED first.
pub give_up_lem :
    (me flags : ℕ) (k : Kernel)
    → (k.runqueues (this_cpu me k).cpu_id).lock ≡ 0
    → IsValidRq k.tcbs (this_cpu me k).cpu_id (k.runqueues (this_cpu me k).cpu_id)
    → (out : Progress × Kernel) × (block_current_and_switch me flags (mark_blocked me k) ≡ some out)
      × Handover me flags (mark_blocked me k) out
give_up_lem me flags k h v =
    block_current_and_switch_lem me flags (mark_blocked me k) h
      (IsValidRq-set_tcb (current me k) (this_cpu me k).cpu_id b
        (k.runqueues (this_cpu me k).cpu_id) k refl v)
      (ap (λ (t : Tcb). t.state) (update-at k.tcbs (current me k) b))
  where
    b : Tcb
    b = record (k.tcbs (current me k)) { state = blocked }

-- A task that has marked itself BLOCKED never comes straight back, whatever its queue holds.
pub never_returns :
    (me flags : ℕ) (k k' : Kernel)
    → block_current_and_switch me flags (mark_blocked me k) ≢ some (returns, k')
unfolding block_current_and_switch hand_over pick_next_ready pick_with rq_lock_irqsave rq_lock
    rq_unlock_irqrestore rq_unlock irq_restore irq_disable_save update
never_returns me flags k k' e = ground (arith, e)
