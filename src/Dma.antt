-- ===== src/Dma.antt =====
-- kernel/main.c: the table of requests that wait for the accelerator, and the dispatch of its
-- completions to the tasks that wait.
pub mod Deliver
pub mod Dispatch
pub mod Table
pub mod Worker
use aarch64_rtos.Prelude.{
  ℕ, zero, suc, ◌+◌, ◌>>=◌, ◌&&◌, Bool, Option, none, some, List, [], ◌∷◌, ◌==◌, if◌then◌else◌, not,
  update,
}
use aarch64_rtos.Kernel.{Kernel}
use aarch64_rtos.Lock.{spin_lock, spin_unlock, irq_disable_save, irq_restore}
use aarch64_rtos.Sync.Sem.{Sem, sem_post}
use aarch64_rtos.Accel.{Completion, Accel, Device, accel_drain_completions_multi}

abbrev pub num_workers : ℕ
num_workers = 3

-- `pending_req_t`; `sem` says which semaphore.
pub record Pending : Type 0 where
  pub cmd_id : ℕ
  pub sem : ℕ
  pub result : Completion
  pub used : ℕ
  pub done : ℕ

-- The state that the dispatch works on.
pub record Dma : Type 0 where
  pub accel_lock : ℕ
  pub accel : Accel
  pub pending : ℕ → Pending
  pub sems : ℕ → Sem
  pub kernel : Kernel

-- The first slot that is not used.
unfoldable pub find_unused : (ℕ → Pending) → ℕ → ℕ → Option ℕ
find_unused pending zero i = none
find_unused pending (suc rounds) i =
    let rest = find_unused pending rounds (i + 1) in if (pending i).used == 0 then some i else rest

unfoldable pub pending_register : ℕ → ℕ → (ℕ → Pending) → ℕ → Pending
pending_register cmd_id sem pending = elim (find_unused pending num_workers 0) [
  | none ↦ pending
  | some i ↦
      update pending i (record (pending i) { cmd_id = cmd_id; sem = sem; used = 1; done = 0 })
]

-- `pending[i].used && !pending[i].done && pending[i].cmd_id == cmd_id`
abbrev pub is_waiting : ℕ → Pending → Bool
is_waiting cmd_id p = not (p.used == 0) && p.done == 0 && p.cmd_id == cmd_id

unfoldable pub find_waiting : (ℕ → Pending) → ℕ → ℕ → ℕ → Option ℕ
find_waiting pending cmd_id zero i = none
find_waiting pending cmd_id (suc rounds) i =
    let rest = find_waiting pending cmd_id rounds (i + 1) in
    if is_waiting cmd_id (pending i) then some i else rest

-- `pending[i].result = comps[c]; pending[i].done = 1; sem_post(pending[i].sem);`
unfoldable pub finish : ℕ → Completion → ℕ → Dma → Option Dma
finish me c i d = do
  let p = record (d.pending i) { result = c; done = 1 }
  (s, k) ← sem_post me (d.sems p.sem) d.kernel
  some (record d { pending = update d.pending i p; sems = update d.sems p.sem s; kernel = k })

unfoldable pub deliver : ℕ → Completion → Dma → Option Dma
deliver me c d = elim (find_waiting d.pending c.cmd_id num_workers 0) [
  | none ↦ some d
  | some i ↦ finish me c i d
]

unfoldable pub deliver_all : ℕ → List Completion → Dma → Option Dma
deliver_all me [] d = some d
deliver_all me (c ∷ comps) d = deliver me c d >>= deliver_all me comps

-- `dev` is what the device shows at each look.
unfoldable pub dispatch_available_completions : ℕ → (ℕ → Device) → Dma → Option Dma
dispatch_available_completions me dev d =
    let (flags, k1) = irq_disable_save me d.kernel in
    let (comps, a) = accel_drain_completions_multi dev 0 num_workers d.accel in
    do
      l ← spin_lock d.accel_lock
      d1 ← deliver_all me comps (record d { accel_lock = l; accel = a; kernel = k1 })
      some (record d1 {
        accel_lock = spin_unlock d1.accel_lock;
        kernel = irq_restore me flags d1.kernel;
      })
