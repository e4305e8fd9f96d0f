-- ===== src/Irq/Laws.antt =====
-- How an interrupt ends: what is signalled to the interrupt controller, and which task goes on.
use aarch64_rtos.Prelude.{
  ℕ, ◌+◌, ◌%◌, ◌^◌, ◌<◌, ◌≡◌, ◌≢◌, ◌⊎◌, refl, sym, ap, ◌∙◌, Option, some, inl, inr, update, arith,
  List, [], ◌∷◌, ◌++◌, true, false, Bool, Bool-cases, leb, ◌==◌, ==→eq, ==→ne, if◌then◌else◌, ◌&&◌,
  not,
}
use mathlib.Core.List.{append-nil}
use aarch64_rtos.Kernel.{Kernel, CpuLocal, ready, max_cpus}
use aarch64_rtos.Sched.Run.{this_cpu, current}
use aarch64_rtos.Accel.{Device}
use aarch64_rtos.Accel.Polled.{accel_irq_ack}
use aarch64_rtos.Dma.{Dma}
use aarch64_rtos.Dma.Dispatch.{IsFree, dispatch_lem}
use aarch64_rtos.Gic.{GicWrite, gicc_base, write32, gic_eoi}
use aarch64_rtos.Irq.{
  timer_irq_id, dma_accel_irq_id, Soc, IrqEnd, resumes, switches_to, kernel, set_kernel, count_call,
  count_switch, eoi, go_on, dma_irq, secondary_tick, secondary_irq, first_tick, irq_handler,
}
use aarch64_rtos.Irq.Total.{IsCalm, tick_lem, balance_tick_lem}

-- What the handler writes to the interrupt controller: the end of the interrupt, but nothing for a
-- spurious one on a secondary core.
abbrev pub signalled : ℕ → ℕ → List GicWrite
signalled cpu id = if not (cpu == 0) && leb 1020 id then [] else write32 (gicc_base + 0x10) id ∷ []

-- The core goes back to the interrupted task, or, on a timer interrupt, on to another READY task,
-- which is its current one from then on.
pub data Ends (me id : ℕ) (s : Soc) : IrqEnd × Soc → Type 0 where
  back : (s' : Soc) → current me (kernel s') ≡ current me (kernel s) → Ends me id s (resumes, s')
  onward :
      (next : ℕ) (s' : Soc)
      → id ≡ timer_irq_id
      → next ≢ current me (kernel s)
      → ((kernel s).tcbs next).state ≡ ready
      → current me (kernel s') ≡ next
      → Ends me id s (switches_to (current me (kernel s)) next, s')

count_switch-current : (me n : ℕ) (k : Kernel) → current me (count_switch me k) ≡ current me k
unfolding count_switch update
count_switch-current me n k = ground arith

go_on-Ends :
    (counted : Bool) (me id n : ℕ) (s s1 : Soc)
    → id ≡ timer_irq_id
    → current me (kernel s1) ≡ current me (kernel s)
    → (n ≡ current me (kernel s)) ⊎ (((kernel s).tcbs n).state ≡ ready)
    → ((go_on counted me n s1).1.gic ≡ s1.gic) × Ends me id s (go_on counted me n s1)
unfolding go_on count_switch update
go_on-Ends counted me id n s s1 i same choice = elim (Bool-cases (n == current me (kernel s1))) [
  | inl e ↦ rw e (refl, back s1 same)
  | inr e ↦
      let other : n ≢ current me (kernel s) = λ q. ==→ne _ _ e (q ∙ sym same) in
      let is_ready_task : ((kernel s).tcbs n).state ≡ ready = elim choice [
        | inl q ↦ absurd (other q)
        | inr r ↦ r
      ] in
      rw (e, same) (refl, onward n _ i other is_ready_task (ground arith))
]

count_call-current : (me : ℕ) (k : Kernel) → current me (count_call me k) ≡ current me k
unfolding count_call update
count_call-current me k = ground arith

-- A handler that came to its end.
abbrev Handled : ℕ → ℕ → Soc → List GicWrite → Option (IrqEnd × Soc) → Type 0
Handled me id s log result =
    (out : IrqEnd × Soc) × (result ≡ some out) × (out.1.gic ≡ s.gic ++ log) × Ends me id s out

module _ (me id status : ℕ) (dev : ℕ → Device) (s : Soc) (calm : IsCalm (kernel s))
    (lt : (this_cpu me (kernel s)).cpu_id < max_cpus) where
  abbrev ended : List GicWrite
  ended = write32 (gicc_base + 0x10) id ∷ []

  secondary_tick-Handled : id ≡ timer_irq_id → Handled me id s ended (secondary_tick me id s)
  unfolding secondary_tick eoi gic_eoi
  secondary_tick-Handled i =
      let (n, s1, e, t) = tick_lem me s lt calm in
      let s2 : Soc = eoi id (set_kernel (count_call me (kernel s1)) s1) in
      let (g, ends) =
        go_on-Ends true me id n s s2 i (count_call-current me (kernel s1) ∙ t.same_current)
          t.choice in
      (go_on true me n s2, rw e refl, g ∙ ap (λ log. log ++ ended) t.same_gic, ends)

  first_tick-Handled :
      (balances : Bool) → id ≡ timer_irq_id → Handled me id s ended (first_tick balances me id s)
  unfolding first_tick eoi gic_eoi
  first_tick-Handled false i =
      let (n, s1, e, t) = tick_lem me s lt calm in
      let (g, ends) = go_on-Ends false me id n s (eoi id s1) i t.same_current t.choice in
      (go_on false me n (eoi id s1), rw e refl, g ∙ ap (λ log. log ++ ended) t.same_gic, ends)
  first_tick-Handled true i =
      let (n, s1, e, t) = tick_lem me s lt calm in
      let (s2, b, same_gic, same_locals) = balance_tick_lem me (eoi id s1) t.calm in
      let same : current me (kernel s2) ≡ current me (kernel s) =
        ap (λ (l : ℕ → CpuLocal). (l me).curr) same_locals ∙ t.same_current in
      let (g, ends) = go_on-Ends false me id n s s2 i same t.choice in
      (
        go_on false me n s2,
        rw (e, b) refl,
        g ∙ same_gic ∙ ap (λ log. log ++ ended) t.same_gic,
        ends,
      )

  dma_irq-Handled :
      s.dma.accel_lock ≡ 0
      → IsFree s.dma
      → (s' : Soc) × (dma_irq me id status dev s ≡ some s')
        × (s'.gic ≡ s.gic ++ ended)
        × (current me (kernel s') ≡ current me (kernel s))
  unfolding dma_irq eoi gic_eoi
  dma_irq-Handled z f =
      let acked : Dma = record s.dma { accel = accel_irq_ack 1 s.dma.accel } in
      let (d, e, same) =
        dispatch_lem me dev acked z (record { sems = f.sems; queues = f.queues }) in
      let c = (this_cpu me (kernel s)).cpu_id in
      let counted : Soc = record s {
        dma_irq_count = update s.dma_irq_count c ((s.dma_irq_count c + 1) % 2 ^ 64);
      } in
      elim (Bool-cases (status % 2 == 1)) [
        | inl b ↦ (
          eoi id (record counted { dma = d }),
          rw (b, e) refl,
          refl,
          ap (λ (l : ℕ → CpuLocal). (l me).curr) same,
        )
        | inr b ↦ (eoi id counted, rw b refl, refl, refl)
      ]

-- On a calm machine, with the locks of the accelerator and of the semaphores free, the handler comes
-- to its end for every interrupt number. It signals the end of that interrupt exactly once, but for
-- a spurious number (1020 and above) on a secondary core, where it signals nothing. The core goes back
-- to the interrupted task or, on a timer interrupt only, on to another task, which is READY and
-- becomes its current one.
pub irq_handler_lem :
    (balances : Bool) (me id status : ℕ) (dev : ℕ → Device) (s : Soc)
    → IsCalm (kernel s)
    → (this_cpu me (kernel s)).cpu_id < max_cpus
    → s.dma.accel_lock ≡ 0
    → IsFree s.dma
    → (out : IrqEnd × Soc) × (irq_handler balances me id status dev s ≡ some out)
      × (out.1.gic ≡ s.gic ++ signalled (this_cpu me (kernel s)).cpu_id id)
      × Ends me id s out
unfolding irq_handler secondary_irq eoi gic_eoi
irq_handler_lem balances me id status dev s calm lt z f =
    let c = (this_cpu me (kernel s)).cpu_id in
    elim (Bool-cases (c == 0)) [
      | inl first ↦ elim (Bool-cases (id == timer_irq_id)) [
        | inl timer ↦
            let (out, e, g, n) =
              first_tick-Handled me id status dev s calm lt balances (==→eq _ _ timer) in
            (out, rw (first, timer) e, rw first g, n)
        | inr timer ↦ elim (Bool-cases (id == dma_accel_irq_id)) [
          | inl dma ↦
              let (s', e, g, same) = dma_irq-Handled me id status dev s calm lt z f in
              ((resumes, s'), rw (first, timer, dma, e) refl, rw first g, back s' same)
          | inr dma ↦ (
            (resumes, eoi id s),
            rw (first, timer, dma) refl,
            rw first refl,
            back (eoi id s) refl,
          )
        ]
      ]
      | inr other ↦ elim (Bool-cases (leb 1020 id)) [
        | inl spurious ↦ (
          (resumes, s),
          rw (other, spurious) refl,
          rw (other, spurious) (sym (append-nil s.gic)),
          back s refl,
        )
        | inr real ↦ elim (Bool-cases (id == timer_irq_id)) [
          | inl timer ↦
              let (out, e, g, n) =
                secondary_tick-Handled me id status dev s calm lt (==→eq _ _ timer) in
              (out, rw (other, real, timer) e, rw (other, real) g, n)
          | inr timer ↦ elim (Bool-cases (id == dma_accel_irq_id)) [
            | inl dma ↦
                let (s', e, g, same) = dma_irq-Handled me id status dev s calm lt z f in
                (
                  (resumes, s'),
                  rw (other, real, timer, dma, e) refl,
                  rw (other, real) g,
                  back s' same,
                )
            | inr dma ↦ (
              (resumes, eoi id s),
              rw (other, real, timer, dma) refl,
              rw (other, real) refl,
              back (eoi id s) refl,
            )
          ]
        ]
      ]
    ]
