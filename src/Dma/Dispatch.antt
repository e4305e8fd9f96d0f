-- ===== src/Dma/Dispatch.antt =====
-- A dispatch of completions (kernel/main.c): whether it comes back, and the locks behind it.
use aarch64_rtos.Prelude.{ℕ, ◌≡◌, refl, ◌∙◌, some, List, [], ◌∷◌, update, arith}
use aarch64_rtos.Lock.{irq_disable_save, irq_restore, spin_lock, spin_unlock}
use aarch64_rtos.Sync.Sem.Laws.{posted, woken}
use aarch64_rtos.Accel.{Completion, Device, accel_drain_completions_multi}
use aarch64_rtos.Dma.{Dma, num_workers, deliver_all, dispatch_available_completions}
use aarch64_rtos.Dma.Deliver.{Delivered, unclaimed, finished, deliver_lem}

-- The locks that a dispatch takes, but for `accel_lock`, are free.
pub record IsFree (d : Dma) : Type 0 where
  pub sems : (s : ℕ) → (d.sems s).lock ≡ 0
  pub queues : (q : ℕ) → (d.kernel.runqueues q).lock ≡ 0

pub Delivered-IsFree : {c : Completion} {d d' : Dma} → Delivered c d d' → IsFree d → IsFree d'
unfolding posted woken update
Delivered-IsFree (unclaimed n) f = f
Delivered-IsFree {d} (finished i lt a) f = record {
  sems = λ s. ground (arith, f.sems s, f.sems (d.pending i).sem);
  queues = λ q. ground (arith, f.queues q);
}

pub Delivered-locals :
    {c : Completion} {d d' : Dma} → Delivered c d d' → d'.kernel.cpu_locals ≡ d.kernel.cpu_locals
unfolding woken
Delivered-locals (unclaimed n) = refl
Delivered-locals (finished i lt a) = ground arith

deliver_all-IsFree :
    (me : ℕ) (comps : List Completion) (d : Dma)
    → IsFree d
    → (d' : Dma) × (deliver_all me comps d ≡ some d')
      × IsFree d'
      × (d'.kernel.cpu_locals ≡ d.kernel.cpu_locals)
unfolding deliver_all
deliver_all-IsFree me [] d f = (d, refl, f, refl)
deliver_all-IsFree me (c ∷ comps) d f =
    let (d1, e, one) = deliver_lem me c d f.sems f.queues in
    let (d2, r, g, l) = deliver_all-IsFree me comps d1 (Delivered-IsFree one f) in
    (d2, rw e r, g, l ∙ Delivered-locals one)

-- With all locks free, a dispatch drains the completions, delivers each, and comes back; it leaves the
-- current tasks alone.
pub dispatch_lem :
    (me : ℕ) (dev : ℕ → Device) (d : Dma)
    → d.accel_lock ≡ 0
    → IsFree d
    → (d' : Dma) × (dispatch_available_completions me dev d ≡ some d')
      × (d'.kernel.cpu_locals ≡ d.kernel.cpu_locals)
unfolding dispatch_available_completions irq_disable_save irq_restore spin_lock spin_unlock
dispatch_lem me dev d z f =
    let drained = accel_drain_completions_multi dev 0 num_workers d.accel in
    let start : Dma = record d {
      accel_lock = 1;
      accel = drained.1;
      kernel = (irq_disable_save me d.kernel).1;
    } in
    let (d1, e, g, l) =
      deliver_all-IsFree me drained.0 start (record { sems = f.sems; queues = f.queues }) in
    let end : Dma = record d1 {
      accel_lock = 0;
      kernel = irq_restore me (d.kernel.daif me) d1.kernel;
    } in
    (end, rw (z, e) refl, l)
