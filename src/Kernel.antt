-- ===== src/Kernel.antt =====
-- kernel/tcb.h, kernel/percpu.h and the shared globals of kernel/sched.c, kernel/smp.c and
-- kernel/uart.c: the state that the operations of the kernel work on.
use Prim.Native.String.{String}
use aarch64_rtos.Prelude.{ℕ, List}

-- `tcb_t`. A task pointer is a number, 0 for the null pointer; `stack` is the word array.
pub record Tcb : Type 0 where
  pub sp : ℕ
  pub stack : ℕ → ℕ
  pub name : String
  pub entry : ℕ
  pub state : ℕ
  pub ewma_load : ℕ
  pub cpu : ℕ
  pub pinned : ℕ

abbrev pub max_tasks : ℕ
max_tasks = 8

abbrev pub max_cpus : ℕ
max_cpus = 4

abbrev pub ready : ℕ
ready = 0

abbrev pub blocked : ℕ
blocked = 1

-- `runqueue_t`. Only the first `num_tasks` entries of `tasks` mean anything.
pub record Runqueue : Type 0 where
  pub tasks : ℕ → ℕ
  pub num_tasks : ℕ
  pub current_idx : ℕ
  pub select_count : ℕ → ℕ
  pub lock : ℕ

-- `cpu_local_t`
pub record CpuLocal : Type 0 where
  pub cpu_id : ℕ
  pub curr : ℕ
  pub irq_count : ℕ
  pub sched_calls : ℕ
  pub unexpected_switch : ℕ
  pub context_switches : ℕ

-- The globals: the control blocks by pointer, the run queues, the per-CPU blocks, and each core's
-- DAIF register; `smp_online`; the UART's lock and the bytes that it has sent, in order.
pub record Kernel : Type 0 where
  pub tcbs : ℕ → Tcb
  pub runqueues : ℕ → Runqueue
  pub cpu_locals : ℕ → CpuLocal
  pub daif : ℕ → ℕ
  pub smp_online : ℕ
  pub uart_lock : ℕ
  pub uart_out : List ℕ
