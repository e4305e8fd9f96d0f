-- ===== src/Crash.antt =====
-- `sync_exception_handler_full` of kernel/main.c: the dump of the registers at a fault, behind which the
-- core stays in a loop. The result is the state in which it does.
pub mod Who
pub mod Laws
use aarch64_rtos.Prelude.{
  ℕ, zero, suc, ◌+◌, ◌/◌, ◌%◌, ◌>>=◌, Option, some, List, [], ◌∷◌, ◌++◌, ◌==◌, ltb, if◌then◌else◌,
  codes,
}
use aarch64_rtos.Kernel.{Kernel}
use aarch64_rtos.Sched.Run.{current}
use aarch64_rtos.Dma.{Pending, num_workers}
use aarch64_rtos.Boot.{Image, task_worker, busy_task}
use aarch64_rtos.Debug.{hexline, decline, widen, minus_one, in_stack}

-- The loop for `matched_worker`, with `rounds` workers left
unfoldable pub find_stack : Image → ℕ → ℕ → ℕ → ℕ
find_stack img sp zero i = minus_one
find_stack img sp (suc rounds) i =
    let rest = find_stack img sp rounds (i + 1) in
    if in_stack (img.address (task_worker i)) sp then i else rest

-- `names[i]`
abbrev pub register_name : ℕ → List ℕ
register_name i =
    if ltb i 10 then b'x' ∷ (b'0' + i) ∷ [] else b'x' ∷ (b'0' + i / 10) ∷ (b'0' + i % 10) ∷ []

-- The loop over the registers, with `rounds` registers left. The label is a space and the name.
unfoldable pub print_registers : ℕ → (ℕ → ℕ) → ℕ → ℕ → Kernel → Option Kernel
print_registers me regs zero i k = some k
print_registers me regs (suc rounds) i k =
    hexline me (b' ' ∷ register_name i) (regs i) k >>= print_registers me regs rounds (i + 1)

-- The number that stands for the current task in the dump
unfoldable pub current_code : Image → ℕ → ℕ
current_code img t =
    if t == 0
    then 98
    else if t == img.address (task_worker 0)
    then 0
    else if t == img.address (task_worker 1)
    then 1
    else if t == img.address (task_worker 2)
    then 2
    else if t == img.address busy_task
    then 3
    else 99

unfoldable pub print_pending : ℕ → (ℕ → ℕ) → Pending → Kernel → Option Kernel
print_pending me sem_address p k = do
  k1 ← decline me (codes "P4 M7: pending[i].used=") (widen p.used) k
  k2 ← decline me (codes "P4 M7: pending[i].done=") (widen p.done) k1
  k3 ← decline me (codes "P4 M7: pending[i].cmd_id=") p.cmd_id k2
  hexline me (codes "P4 M7: pending[i].sem ptr=") (sem_address p.sem) k3

unfoldable pub print_requests : ℕ → (ℕ → ℕ) → (ℕ → Pending) → ℕ → ℕ → Kernel → Option Kernel
print_requests me sem_address pending zero i k = some k
print_requests me sem_address pending (suc rounds) i k =
    print_pending me sem_address (pending i) k
    >>= print_requests me sem_address pending rounds (i + 1)

-- `regs` is what kernel/vectors.S has saved: x0 to x30, ESR, ELR and the stack pointer; a semaphore
-- stands at its `sem_address`.
unfoldable pub sync_exception_handler_full :
    Image → ℕ → (ℕ → ℕ) → (ℕ → ℕ) → (ℕ → Pending) → Kernel → Option Kernel
sync_exception_handler_full img me sem_address regs pending k = do
  k1 ← hexline me (codes "SYNC EXCEPTION ESR=") (regs 31) k
  k2 ← hexline me (codes "SYNC EXCEPTION ELR=") (regs 32) k1
  k3 ← hexline me (codes "SYNC EXCEPTION SP=") (regs 33) k2
  let matched = find_stack img (regs 33) num_workers 0
  k4 ← decline me (codes "SYNC EXCEPTION SP belongs to worker (-1=none)=") (widen matched) k3
  k5 ← print_registers me regs 31 0 k4
  k6 ← decline me (codes "P4 M7: current task = ") (current_code img (current me k5)) k5
  print_requests me sem_address pending num_workers 0 k6
