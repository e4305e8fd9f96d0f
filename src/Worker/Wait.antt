-- ===== src/Worker/Wait.antt =====
-- The wait of a worker for its completion (`worker_entry` of kernel/main.c).
use aarch64_rtos.Prelude.{
  ℕ, ◌+◌, ◌-◌, ◌≡◌, refl, false, Bool-cases, inl, inr, Option, some, update-at, arith,
}
use aarch64_rtos.Sched.Run.{this_cpu, current}
use aarch64_rtos.Sched.Valid.{IsValidRq}
use aarch64_rtos.Sync.Block.{Progress, returns, Handover}
use aarch64_rtos.Sync.Sem.{is_positive}
use aarch64_rtos.Sync.Sem.Laws.{giving_up, sem_wait-positive, sem_wait-blocks}
use aarch64_rtos.Dma.{Dma}
use aarch64_rtos.Worker.{Workers, worker_wait}

-- The locks that a wait takes are free, and the queue of the core is well-formed.
pub record CanWait (me id : ℕ) (d : Dma) : Type 0 where
  pub sem : (d.sems id).lock ≡ 0
  pub idle : (d.kernel.runqueues (this_cpu me d.kernel).cpu_id).lock ≡ 0
  pub valid :
      IsValidRq d.kernel.tcbs
        (this_cpu me d.kernel).cpu_id
        (d.kernel.runqueues (this_cpu me d.kernel).cpu_id)

-- How the wait ends: the completion was dispatched before, and the token is taken; or the task is the
-- semaphore's waiter, and the core is handed to another READY task or waits in place.
pub data Waited (me id : ℕ) (d : Dma) : Option (Progress × Workers) → Type 0 where
  goes_on :
      (w' : Workers)
      → (w'.dma.sems id).count + 1 ≡ (d.sems id).count
      → w'.dma.kernel ≡ d.kernel
      → Waited me id d (some (returns, w'))
  sleeps :
      (p : Progress) (w' : Workers)
      → is_positive (d.sems id).count ≡ false
      → w'.dma.sems id ≡ record (d.sems id) { waiter = current me d.kernel }
      → Handover me (d.kernel.daif me) (giving_up me d.kernel) (p, w'.dma.kernel)
      → Waited me id d (some (p, w'))

-- With its locks free and the queue of the core well-formed, the wait of a worker comes back at once if
-- there is a token, and else leaves the task as the waiter of its semaphore.
pub worker_wait_lem :
    (me id : ℕ) (w : Workers) → CanWait me id w.dma → Waited me id w.dma (worker_wait me id w)
unfolding worker_wait
worker_wait_lem me id w c =
    let s = w.dma.sems id in
    let k = w.dma.kernel in
    elim (Bool-cases (is_positive s.count)) [
      | inl p ↦ rw (sem_wait-positive me s k c.sem p) (
          goes_on _
            (rw (update-at w.dma.sems id (record s { count = s.count - 1 })) (ground (arith, p)))
            refl)
      | inr p ↦
          let (out, e, h) = sem_wait-blocks me s k c.sem p c.idle c.valid in
          rw e (sleeps out.0 _ p (update-at w.dma.sems id _) h)
    ]
