-- ===== src/Irq/Keep.antt =====
-- The steps of the handlers below the level of an interrupt, in a calm kernel.
use aarch64_rtos.Prelude.{
  ℕ, ◌<◌, ◌≡◌, ◌≢◌, refl, ap, ◌∙◌, some, inl, inr, update, arith, List, [], ◌∷◌, Bool-cases, ◌==◌,
}
use aarch64_rtos.Kernel.{Kernel, max_cpus, max_tasks, ready}
use aarch64_rtos.Sched.Valid.Keep.{IsValid-set_tcb}
use aarch64_rtos.Sched.Migrate.{transfer, remove_slot, append_task}
use aarch64_rtos.Sched.Migrate.Keep.{transfer-IsValid}
use aarch64_rtos.Sched.Balance.Pass.{Balanced, even, stuck, moves}
use aarch64_rtos.Sync.Sem.{Sem}
use aarch64_rtos.Sync.Sem.Laws.{woken}
use aarch64_rtos.Accel.{Completion, Device}
use aarch64_rtos.Dma.{Dma}
use aarch64_rtos.Dma.Deliver.{Delivered, unclaimed, finished}
use aarch64_rtos.Lock.{irq_disable_save, irq_restore, spin_lock, spin_unlock}
use aarch64_rtos.Accel.{accel_drain_completions_multi}
use aarch64_rtos.Dma.{num_workers, deliver_all, dispatch_available_completions}
use aarch64_rtos.Dma.Deliver.{deliver_lem}
use aarch64_rtos.Dma.Dispatch.{IsFree, Delivered-IsFree, Delivered-locals}
use aarch64_rtos.Irq.Total.{IsCalm}

transfer-free :
    (src dst idx t : ℕ) (k : Kernel)
    → ((q : ℕ) → (k.runqueues q).lock ≡ 0)
    → (q : ℕ) → ((transfer src dst idx t k).runqueues q).lock ≡ 0
unfolding transfer remove_slot append_task update
transfer-free src dst idx t k free q = ground (arith, free q, free src, free dst)

transfer-others :
    (src dst idx t : ℕ) (k : Kernel)
    → ((transfer src dst idx t k).uart_lock ≡ k.uart_lock)
      × ((transfer src dst idx t k).smp_online ≡ k.smp_online)
unfolding transfer
transfer-others src dst idx t k = (refl, refl)

pub Balanced-IsCalm : {k k' : Kernel} → Balanced k k' → IsCalm k → IsCalm k'
Balanced-IsCalm (even h) c = c
Balanced-IsCalm (stuck e x n) c = c
Balanced-IsCalm {k} (moves e idx t out x gap lt at m) c =
    let lb : e.busiest < max_cpus = omega (arith, x.busiest_in, c.online) in
    let li : e.idlest < max_cpus = omega (arith, x.idlest_in, c.online) in
    let ne : e.busiest ≢ e.idlest = λ q.
      let same : (k.runqueues e.busiest).num_tasks ≡ (k.runqueues e.idlest).num_tasks =
        ap (λ b. (k.runqueues b).num_tasks) q in
      omega (arith, same, x.busiest_len, x.idlest_len, gap) in
    let room : (k.runqueues e.idlest).num_tasks < max_tasks =
      omega (arith, x.busiest_len, x.idlest_len, gap, (c.valid e.busiest lb).few) in
    let (u, o) = transfer-others e.busiest e.idlest idx t k in
    record {
      valid = transfer-IsValid e.busiest e.idlest idx t k lb li ne room lt at c.valid;
      free = transfer-free e.busiest e.idlest idx t k c.free;
      quiet = u ∙ c.quiet;
      online = (omega (arith, o, c.online), omega (arith, o, c.online));
    }

woken-IsCalm : (s : Sem) (k : Kernel) → IsCalm k → IsCalm (woken s k)
unfolding woken
woken-IsCalm s k c = elim (Bool-cases (s.waiter == 0)) [
  | inl e ↦ rw (e, woken) c
  | inr e ↦
      rw (e, woken)
        (record {
          valid =
              IsValid-set_tcb s.waiter (record (k.tcbs s.waiter) { state = ready }) k refl c.valid;
          free = c.free;
          quiet = c.quiet;
          online = c.online;
        })
]

Delivered-IsCalm :
    {c : Completion} {d d' : Dma} → Delivered c d d' → IsCalm d.kernel → IsCalm d'.kernel
Delivered-IsCalm (unclaimed n) calm = calm
Delivered-IsCalm {d} (finished i lt a) calm = woken-IsCalm (d.sems (d.pending i).sem) d.kernel calm

-- Deliveries and a dispatch come back, and leave the kernel calm and the locks free.
deliver_all-IsCalm :
    (me : ℕ) (comps : List Completion) (d : Dma)
    → IsFree d
    → IsCalm d.kernel
    → (d' : Dma) × (deliver_all me comps d ≡ some d')
      × IsFree d'
      × IsCalm d'.kernel
      × (d'.kernel.cpu_locals ≡ d.kernel.cpu_locals)
unfolding deliver_all
deliver_all-IsCalm me [] d f c = (d, refl, f, c, refl)
deliver_all-IsCalm me (m ∷ comps) d f c =
    let (d1, e, one) = deliver_lem me m d f.sems f.queues in
    let (d2, r, g, c2, l) =
      deliver_all-IsCalm me comps d1 (Delivered-IsFree one f) (Delivered-IsCalm one c) in
    (d2, rw e r, g, c2, l ∙ Delivered-locals one)

daif-IsCalm : (f : ℕ → ℕ) (k : Kernel) → IsCalm k → IsCalm (record k { daif = f })
daif-IsCalm f k c = record { valid = c.valid; free = c.free; quiet = c.quiet; online = c.online }

pub dispatch-IsCalm :
    (me : ℕ) (dev : ℕ → Device) (d : Dma)
    → d.accel_lock ≡ 0
    → IsFree d
    → IsCalm d.kernel
    → (d' : Dma) × (dispatch_available_completions me dev d ≡ some d')
      × (d'.accel_lock ≡ 0)
      × IsFree d'
      × IsCalm d'.kernel
      × (d'.kernel.cpu_locals ≡ d.kernel.cpu_locals)
unfolding dispatch_available_completions irq_disable_save irq_restore spin_lock spin_unlock
dispatch-IsCalm me dev d z f c =
    let drained = accel_drain_completions_multi dev 0 num_workers d.accel in
    let masked : Kernel = (irq_disable_save me d.kernel).1 in
    let start : Dma = record d { accel_lock = 1; accel = drained.1; kernel = masked } in
    let (d1, e, g, c1, l) =
      deliver_all-IsCalm me drained.0 start (record { sems = f.sems; queues = f.queues })
        (daif-IsCalm masked.daif d.kernel c) in
    let k2 : Kernel = irq_restore me (d.kernel.daif me) d1.kernel in
    (
      record d1 { accel_lock = 0; kernel = k2 },
      rw (z, e) refl,
      refl,
      record { sems = g.sems; queues = g.queues },
      daif-IsCalm k2.daif d1.kernel c1,
      l,
    )
