-- ===== src/Report/Printers.antt =====
-- The parts of the busy task's reports.
use aarch64_rtos.Prelude.{
  ℕ, zero, suc, ◌+◌, ◌^◌, ◌≤◌, ◌<◌, ◌≡◌, ◌>>=◌, refl, bind-some, Option, some, List, [], true,
  codes, arith,
}
use aarch64_rtos.Kernel.{Kernel, CpuLocal}
use aarch64_rtos.Uart.{klog}
use aarch64_rtos.Uart.Laws.{klog-plain}
use aarch64_rtos.Lines.Buffer.{is_text}
use aarch64_rtos.Debug.{decline}
use aarch64_rtos.Lines.Printer.{
  IsPrinter, then-IsPrinter, some-IsPrinter, klog-IsPrinter, print_decline-IsPrinter,
}
use aarch64_rtos.Sched.Migrate.{crlf}
use aarch64_rtos.Sched.Run.{sched_debug_select_count_for}
use aarch64_rtos.Boot.{Image, task_worker, busy_task}
use aarch64_rtos.Report.{
  Counters, over_secondaries, report_irqs, report_calls, report_progress, report_switches,
  report_all, dma_irq_report, report_selects, report_load, report_tasks,
}

-- The counters fit their types.
pub record IsCounted (n : Counters) : Type 0 where
  pub dma : (c : ℕ) → n.dma_irq_count c < 2 ^ 64
  pub progress : (c i : ℕ) → n.test_progress c i < 2 ^ 64
  pub rounds : n.pp_rounds_done < 2 ^ 64
  pub pongs : n.pp_pongs < 2 ^ 64

pub record IsCountedKernel (k : Kernel) : Type 0 where
  pub irqs : (c : ℕ) → (k.cpu_locals c).irq_count < 2 ^ 64
  pub loads : (t : ℕ) → (k.tcbs t).ewma_load < 2 ^ 32
  pub selects : (c t : ℕ) → sched_debug_select_count_for c t k < 2 ^ 64

-- On a kernel whose counters fit, the program only prints.
abbrev pub Reports : (Kernel → Option Kernel) → Type 0
Reports f =
    (k : Kernel)
    → k.uart_lock ≡ 0
    → IsCountedKernel k
    → (out : List ℕ) × (f k ≡ some (record k { uart_out = out }))

then-Reports : (f g : Kernel → Option Kernel) → Reports f → Reports g → Reports (λ k. f k >>= g)
unfolding sched_debug_select_count_for
then-Reports f g p q k free c =
    let (o1, e1) = p k free c in
    let (o2, e2) =
      q (record k { uart_out = o1 }) free
        (record { irqs = c.irqs; loads = c.loads; selects = c.selects }) in
    (o2, bind-some g e1 e2)

klog-Reports :
    (me : ℕ) (prefix : List ℕ) (field : Kernel → ℕ) (suffix : List ℕ)
    → ((k : Kernel) → IsCountedKernel k → field k < 2 ^ 64)
    → Reports (λ k. klog me prefix (field k) true suffix k)
klog-Reports me prefix field suffix small k free c =
    klog-IsPrinter me prefix (field k) suffix (small k c) k free

decline-Reports :
    (me : ℕ) (prefix : List ℕ) (field : Kernel → ℕ)
    → is_text prefix ≡ true
    → ((k : Kernel) → IsCountedKernel k → field k < 2 ^ 64)
    → Reports (λ k. decline me prefix (field k) k)
decline-Reports me prefix field text small k free c =
    print_decline-IsPrinter (λ _ _. 0) me prefix (field k) text (small k c) k free

report_irqs-Reports : (me : ℕ) → Reports (report_irqs me)
unfolding report_irqs
report_irqs-Reports me =
    then-Reports _ _
      (klog-Reports me (codes "IRQ counts: cpu0=") (λ k. (k.cpu_locals 0).irq_count) []
        (λ k c. c.irqs 0))
      (then-Reports _ _
        (klog-Reports me (codes " cpu1=") (λ k. (k.cpu_locals 1).irq_count) [] (λ k c. c.irqs 1))
        (then-Reports _ _
          (klog-Reports me (codes " cpu2=") (λ k. (k.cpu_locals 2).irq_count) [] (λ k c. c.irqs 2))
          (klog-Reports me (codes " cpu3=") (λ k. (k.cpu_locals 3).irq_count) crlf
            (λ k c. c.irqs 3))))

sum_small : (field : CpuLocal → ℕ) (k : Kernel) → over_secondaries field k < 2 ^ 64
sum_small field k = omega arith

report_calls-Reports : (me : ℕ) → Reports (report_calls me)
unfolding report_calls
report_calls-Reports me k free c =
    let bad = over_secondaries (λ c. c.unexpected_switch) k in
    then-IsPrinter _ _
      (klog-IsPrinter me (codes "SCHED secondaries: calls=")
        (over_secondaries (λ c. c.sched_calls) k) [] (sum_small (λ c. c.sched_calls) k))
      (klog-IsPrinter me (codes " unexpected=") bad crlf (sum_small (λ c. c.unexpected_switch) k)) k
      free

report_progress-IsPrinter :
    (me : ℕ) (progress : ℕ → ℕ → ℕ) (rounds c : ℕ)
    → ((c i : ℕ) → progress c i < 2 ^ 64)
    → c + rounds ≤ 4
    → IsPrinter (report_progress me progress rounds c)
unfolding report_progress
report_progress-IsPrinter me progress zero c small few = some-IsPrinter
report_progress-IsPrinter me progress (suc rounds) c small few =
    then-IsPrinter _ _ (klog-IsPrinter me (codes " cpu") c (codes "=") (omega (arith, few))) (
      then-IsPrinter _ _ (klog-IsPrinter me [] (progress c 0) (codes ",") (small c 0)) (
        then-IsPrinter _ _ (klog-IsPrinter me [] (progress c 1) [] (small c 1))
          (report_progress-IsPrinter me progress rounds (c + 1) small (omega (arith, few)))))

report_switches-Reports :
    (me : ℕ) (progress : ℕ → ℕ → ℕ)
    → ((c i : ℕ) → progress c i < 2 ^ 64)
    → Reports (report_switches me progress)
unfolding report_switches
report_switches-Reports me progress small k free c =
    then-IsPrinter _ _
      (klog-IsPrinter me (codes "SECTEST switches=") (over_secondaries (λ c. c.context_switches) k)
        [] (sum_small (λ c. c.context_switches) k))
      (then-IsPrinter _ _ (report_progress-IsPrinter me progress 3 1 small (omega arith))
        (λ k1 free1. (_, klog-plain me [] 0 crlf k1 free1)))
      k free

pub report_all-Reports : (me : ℕ) (n : Counters) → IsCounted n → Reports (report_all me n)
unfolding report_all
report_all-Reports me n s = then-Reports _ _ (report_irqs-Reports me) (
    then-Reports _ _ (report_calls-Reports me) (
      then-Reports _ _ (report_switches-Reports me n.test_progress s.progress) (
        then-Reports _ _
          (klog-Reports me (codes "PINGPONG rounds=") (λ k. n.pp_rounds_done) [] (λ k c. s.rounds))
          (klog-Reports me (codes " pongs=") (λ k. n.pp_pongs) crlf (λ k c. s.pongs)))))

pub dma_irq_report-Reports :
    (me : ℕ) (count : ℕ → ℕ) → ((c : ℕ) → count c < 2 ^ 64) → Reports (dma_irq_report me count)
unfolding dma_irq_report
dma_irq_report-Reports me count small =
    then-Reports _ _ (decline-Reports me (codes "DMA IRQ c0=") (λ k. count 0) refl (λ k c. small 0))
      (then-Reports _ _
        (decline-Reports me (codes "DMA IRQ c1=") (λ k. count 1) refl (λ k c. small 1))
        (then-Reports _ _
          (decline-Reports me (codes "DMA IRQ c2=") (λ k. count 2) refl (λ k c. small 2))
          (decline-Reports me (codes "DMA IRQ c3=") (λ k. count 3) refl (λ k c. small 3))))

report_selects-Reports :
    (me t : ℕ) (prefix : List ℕ) → is_text prefix ≡ true → Reports (report_selects me prefix t)
unfolding report_selects
report_selects-Reports me t prefix text =
    decline-Reports me prefix (λ k. sched_debug_select_count_for (k.tcbs t).cpu t k) text
      (λ k c. c.selects (k.tcbs t).cpu t)

pub report_load-Reports : (me t : ℕ) → Reports (report_load me t)
unfolding report_load
report_load-Reports me t =
    decline-Reports me (codes "BUSY TASK ewma=") (λ k. (k.tcbs t).ewma_load) refl
      (λ k c. omega (arith, c.loads t))

pub report_tasks-Reports :
    (img : Image) (me : ℕ) (count : ℕ → ℕ)
    → ((c : ℕ) → count c < 2 ^ 64)
    → Reports (report_tasks img me count)
unfolding report_tasks
report_tasks-Reports img me count small = then-Reports _ _ (dma_irq_report-Reports me count small) (
    then-Reports _ _ (report_selects-Reports me (img.address busy_task) (codes "SELECT busy=") refl)
      (then-Reports _ _
        (report_selects-Reports me (img.address (task_worker 0)) (codes "SELECT w0=") refl)
        (then-Reports _ _
          (report_selects-Reports me (img.address (task_worker 1)) (codes "SELECT w1=") refl)
          (report_selects-Reports me (img.address (task_worker 2)) (codes "SELECT w2=") refl))))

pub printed :
    (k : Kernel) (out : List ℕ) → IsCountedKernel k → IsCountedKernel (record k { uart_out = out })
unfolding sched_debug_select_count_for
printed k out c = record { irqs = c.irqs; loads = c.loads; selects = c.selects }
