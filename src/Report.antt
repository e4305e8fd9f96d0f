-- ===== src/Report.antt =====
-- The reports of the busy task: `busy_task_entry` and `dma_irq_report` of kernel/main.c, and
-- `smp_report_irq_counts` of kernel/smp.c. The other cores keep their counters meanwhile; the state is that at the report.
pub mod Printers
pub mod Laws
use aarch64_rtos.Prelude.{
  ℕ, zero, suc, ◌+◌, ◌%◌, ◌^◌, ◌>>=◌, Option, some, List, [], ◌==◌, if◌then◌else◌, true, false,
  codes,
}
use aarch64_rtos.Kernel.{Kernel, CpuLocal, Runqueue}
use aarch64_rtos.Uart.{klog}
use aarch64_rtos.Sched.Migrate.{crlf}
use aarch64_rtos.Sched.Run.{sched_debug_select_count_for}
use aarch64_rtos.Boot.{Image, task_worker, busy_task}
use aarch64_rtos.Debug.{decline}

-- The counters outside the kernel's state: the passes of the busy task, the calls of
-- `smp_report_irq_counts`, the accelerator's interrupts per core, the progress of the test tasks, and
-- those of the ping and pong tasks.
pub record Counters : Type 0 where
  pub counter : ℕ
  pub calls : ℕ
  pub dma_irq_count : ℕ → ℕ
  pub test_progress : ℕ → ℕ → ℕ
  pub pp_rounds_done : ℕ
  pub pp_pongs : ℕ

-- `for (c = 1; c < MAX_CPUS; c++) sum += cpu_locals[c].…`
abbrev pub over_secondaries : (CpuLocal → ℕ) → Kernel → ℕ
over_secondaries field k =
    (field (k.cpu_locals 1) + field (k.cpu_locals 2) + field (k.cpu_locals 3)) % 2 ^ 64

unfoldable pub report_irqs : ℕ → Kernel → Option Kernel
report_irqs me k = do
  k1 ← klog me (codes "IRQ counts: cpu0=") (k.cpu_locals 0).irq_count true [] k
  k2 ← klog me (codes " cpu1=") (k1.cpu_locals 1).irq_count true [] k1
  k3 ← klog me (codes " cpu2=") (k2.cpu_locals 2).irq_count true [] k2
  klog me (codes " cpu3=") (k3.cpu_locals 3).irq_count true crlf k3

unfoldable pub report_calls : ℕ → Kernel → Option Kernel
report_calls me k = do
  let calls = over_secondaries (λ c. c.sched_calls) k
  let bad = over_secondaries (λ c. c.unexpected_switch) k
  k1 ← klog me (codes "SCHED secondaries: calls=") calls true [] k
  klog me (codes " unexpected=") bad true crlf k1

-- The loop over the test tasks, with `rounds` cores left
unfoldable pub report_progress : ℕ → (ℕ → ℕ → ℕ) → ℕ → ℕ → Kernel → Option Kernel
report_progress me progress zero c k = some k
report_progress me progress (suc rounds) c k = do
  k1 ← klog me (codes " cpu") c true (codes "=") k
  k2 ← klog me [] (progress c 0) true (codes ",") k1
  k3 ← klog me [] (progress c 1) true [] k2
  report_progress me progress rounds (c + 1) k3

unfoldable pub report_switches : ℕ → (ℕ → ℕ → ℕ) → Kernel → Option Kernel
report_switches me progress k = do
  let sw = over_secondaries (λ c. c.context_switches) k
  k1 ← klog me (codes "SECTEST switches=") sw true [] k
  k2 ← report_progress me progress 3 1 k1
  klog me [] 0 false crlf k2

unfoldable pub report_all : ℕ → Counters → Kernel → Option Kernel
report_all me n k = do
  k1 ← report_irqs me k
  k2 ← report_calls me k1
  k3 ← report_switches me n.test_progress k2
  k4 ← klog me (codes "PINGPONG rounds=") n.pp_rounds_done true [] k3
  klog me (codes " pongs=") n.pp_pongs true crlf k4

-- `if (++calls % 64) return;` and the report
unfoldable pub smp_report_irq_counts : ℕ → Counters → Kernel → Option (Counters × Kernel)
smp_report_irq_counts me n k =
    let n1 : Counters = record n { calls = (n.calls + 1) % 2 ^ 64 } in
    let report = report_all me n1 k >>= λ k1. some (n1, k1) in
    if n1.calls % 64 == 0 then report else some (n1, k)

unfoldable pub dma_irq_report : ℕ → (ℕ → ℕ) → Kernel → Option Kernel
dma_irq_report me count k = do
  k1 ← decline me (codes "DMA IRQ c0=") (count 0) k
  k2 ← decline me (codes "DMA IRQ c1=") (count 1) k1
  k3 ← decline me (codes "DMA IRQ c2=") (count 2) k2
  decline me (codes "DMA IRQ c3=") (count 3) k3

-- `print_decline("SELECT …=", sched_debug_select_count_for(t.cpu, &t));`
unfoldable pub report_selects : ℕ → List ℕ → ℕ → Kernel → Option Kernel
report_selects me prefix t k = decline me prefix (sched_debug_select_count_for (k.tcbs t).cpu t k) k

unfoldable pub report_load : ℕ → ℕ → Kernel → Option Kernel
report_load me t k = decline me (codes "BUSY TASK ewma=") (k.tcbs t).ewma_load k

unfoldable pub report_tasks : Image → ℕ → (ℕ → ℕ) → Kernel → Option Kernel
report_tasks img me dma_irq_count k = do
  k1 ← dma_irq_report me dma_irq_count k
  k2 ← report_selects me (codes "SELECT busy=") (img.address busy_task) k1
  k3 ← report_selects me (codes "SELECT w0=") (img.address (task_worker 0)) k2
  k4 ← report_selects me (codes "SELECT w1=") (img.address (task_worker 1)) k3
  report_selects me (codes "SELECT w2=") (img.address (task_worker 2)) k4

-- What the busy task does on every 2^20th pass.
unfoldable pub busy_report : Image → ℕ → Counters → Kernel → Option (Counters × Kernel)
busy_report img me n k = do
  k1 ← report_load me (img.address busy_task) k
  (n1, k2) ← smp_report_irq_counts me n k1
  k3 ← report_tasks img me n1.dma_irq_count k2
  some (n1, k3)

-- A pass of the loop of `busy_task_entry`
unfoldable pub busy_pass : Image → ℕ → Counters → Kernel → Option (Counters × Kernel)
busy_pass img me n k =
    let n1 : Counters = record n { counter = (n.counter + 1) % 2 ^ 64 } in
    let report = busy_report img me n1 k in
    if n1.counter % 2 ^ 20 == 0 then report else some (n1, k)
