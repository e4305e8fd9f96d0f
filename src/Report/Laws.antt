-- ===== src/Report/Laws.antt =====
-- The passes of the busy task of kernel/main.c.
use aarch64_rtos.Prelude.{
  ℕ, suc, ◌+◌, ◌/◌, ◌%◌, ◌^◌, ◌<◌, ◌≡◌, refl, sym, ap, ◌∙◌, bind-some, Bool-cases, inl, inr, some,
  List, ◌==◌, if◌then◌else◌, arith,
}
use aarch64_rtos.Kernel.{Kernel}
use aarch64_rtos.Boot.{Image, busy_task}
use aarch64_rtos.Report.{Counters, smp_report_irq_counts, busy_report, busy_pass}
use aarch64_rtos.Report.Printers.{
  IsCounted, IsCountedKernel, report_all-Reports, report_load-Reports, report_tasks-Reports,
  printed,
}

-- A report with counters
smp_report_irq_counts-some :
    (me : ℕ) (n : Counters) (k : Kernel)
    → IsCounted n
    → k.uart_lock ≡ 0
    → IsCountedKernel k
    → (out : List ℕ) × (smp_report_irq_counts me n k
        ≡ some (record n { calls = (n.calls + 1) % 2 ^ 64 }, record k { uart_out = out }))
unfolding smp_report_irq_counts
smp_report_irq_counts-some me n k s free c =
    let n1 : Counters = record n { calls = (n.calls + 1) % 2 ^ 64 } in
    let counted : IsCounted n1 = record {
      dma = s.dma;
      progress = s.progress;
      rounds = s.rounds;
      pongs = s.pongs;
    } in
    elim (Bool-cases (n1.calls % 64 == 0)) [
      | inl z ↦ let (out, e) = report_all-Reports me n1 counted k free c in (out, rw (z, e) refl)
      | inr z ↦ (k.uart_out, rw z refl)
    ]

busy_report-some :
    (img : Image) (me : ℕ) (n : Counters) (k : Kernel)
    → IsCounted n
    → k.uart_lock ≡ 0
    → IsCountedKernel k
    → (out : List ℕ) × (busy_report img me n k
        ≡ some (record n { calls = (n.calls + 1) % 2 ^ 64 }, record k { uart_out = out }))
unfolding busy_report
busy_report-some img me n k s free c =
    let (o1, e1) = report_load-Reports me (img.address busy_task) k free c in
    let k1 : Kernel = record k { uart_out = o1 } in
    let (o2, e2) = smp_report_irq_counts-some me n k1 s free (printed k o1 c) in
    let k2 : Kernel = record k { uart_out = o2 } in
    let (o3, e3) = report_tasks-Reports img me n.dma_irq_count s.dma k2 free (printed k o2 c) in
    (o3, bind-some _ e1 (bind-some _ e2 (bind-some _ e3 refl)))

-- The counters after a pass
abbrev pub passed : Counters → Counters
passed n =
    let counter = (n.counter + 1) % 2 ^ 64 in
    record n {
      counter = counter;
      calls = if counter % 2 ^ 20 == 0 then (n.calls + 1) % 2 ^ 64 else n.calls;
    }

busy_pass-some :
    (img : Image) (me : ℕ) (n : Counters) (k : Kernel)
    → IsCounted n
    → k.uart_lock ≡ 0
    → IsCountedKernel k
    → (out : List ℕ) × (busy_pass img me n k ≡ some (passed n, record k { uart_out = out }))
unfolding busy_pass
busy_pass-some img me n k s free c =
    let n1 : Counters = record n { counter = (n.counter + 1) % 2 ^ 64 } in
    let counted : IsCounted n1 = record {
      dma = s.dma;
      progress = s.progress;
      rounds = s.rounds;
      pongs = s.pongs;
    } in
    elim (Bool-cases (n1.counter % 2 ^ 20 == 0)) [
      | inl z ↦ let (out, e) = busy_report-some img me n1 k counted free c in (out, rw (z, e) refl)
      | inr z ↦ (k.uart_out, rw z refl)
    ]

-- `p` passes of the busy task; the other cores change what is theirs in between.
pub data Passes (img : Image) : ℕ → Counters → Type 0 where
  start : (n : Counters) → n.counter ≡ 0 → n.calls ≡ 0 → Passes img 0 n
  pass :
      {p : ℕ} {n n1 n2 : Counters} (me : ℕ) (k k' : Kernel)
      → Passes img p n
      → n1.counter ≡ n.counter
      → n1.calls ≡ n.calls
      → IsCounted n1
      → k.uart_lock ≡ 0
      → IsCountedKernel k
      → busy_pass img me n1 k ≡ some (n2, k')
      → Passes img (suc p) n2

Passes-counted :
    (img : Image) (p : ℕ) (n : Counters)
    → p < 2 ^ 64
    → Passes img p n
    → (n.counter ≡ p) × (n.calls ≡ p / 2 ^ 20)
Passes-counted img _ _ lt (start n z1 z2) = (z1, z2)
Passes-counted img _ n2 lt (pass {p} {n} {n1} me k k' r same1 same2 s free c e) =
    let (counter, calls) = Passes-counted img p n (omega (arith, lt)) r in
    let now : (passed n1).counter ≡ suc p = omega (arith, counter, same1, lt) in
    let reports : (passed n1).calls ≡ suc p / 2 ^ 20 = ground (arith, calls, same2, now, lt) in
    let (out, f) = busy_pass-some img me n1 k s free c in
    let both : some (passed n1, record k { uart_out = out }) ≡ some (n2, k') = sym f ∙ e in
    let same : (passed n1, record k { uart_out = out }) ≡ (n2, k') = cc in
    let after : passed n1 ≡ n2 = ap (λ (x : Counters × Kernel). x.0) same in
    (
      ap (λ (x : Counters). x.counter) (sym after) ∙ now,
      ap (λ (x : Counters). x.calls) (sym after) ∙ reports,
    )

-- After `p` passes of the busy task with the UART free and the counters in range, whatever the other
-- cores do in between, `smp_report_irq_counts` has been called once for every 2^20 passes; and the
-- next pass comes back as well, on any such kernel, and changes nothing but these two counters and the
-- output.
pub busy_task_lem :
    (img : Image) (me p : ℕ) (n : Counters) (k : Kernel)
    → p < 2 ^ 64
    → Passes img p n
    → IsCounted n
    → k.uart_lock ≡ 0
    → IsCountedKernel k
    → (n.counter ≡ p)
      × (n.calls ≡ p / 2 ^ 20)
      × ((out : List ℕ) × (busy_pass img me n k ≡ some (passed n, record k { uart_out = out })))
busy_task_lem img me p n k lt r s free c =
    let (counter, calls) = Passes-counted img p n lt r in
    (counter, calls, busy_pass-some img me n k s free c)
