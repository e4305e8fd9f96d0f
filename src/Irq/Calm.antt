-- ===== src/Irq/Calm.antt =====
-- Interrupts that follow each other on any cores (kernel/main.c).
use aarch64_rtos.Prelude.{
  ℕ, ◌+◌, ◌%◌, ◌^◌, ◌<◌, ◌≡◌, refl, ap, ◌∙◌, Option, some, inl, inr, update, arith, List, [], ◌∷◌,
  true, false, Bool, Bool-cases, leb, ◌==◌, ◌>>=◌,
}
use aarch64_rtos.Kernel.{CpuLocal, max_cpus}
use aarch64_rtos.Sched.Run.{this_cpu, current}
use aarch64_rtos.Accel.{Device}
use aarch64_rtos.Dma.{Dma}
use aarch64_rtos.Accel.Polled.{accel_irq_ack}
use aarch64_rtos.Sched.Balance.Pass.{sched_load_balance_pass_lem}
use aarch64_rtos.Irq.{
  timer_irq_id, dma_accel_irq_id, Soc, IrqEnd, resumes, kernel, set_kernel, count_call,
  count_switch, eoi, go_on, dma_irq, secondary_tick, secondary_irq, balance_tick, first_tick,
  irq_handler,
}
use aarch64_rtos.Irq.Total.{IsCalm, tick_lem, Balanced-locals}
use aarch64_rtos.Irq.Keep.{Balanced-IsCalm, dispatch-IsCalm}

-- No lock is held, the queues are well-formed, and the cores have numbers in range.
pub record IsQuiet (s : Soc) : Type 0 where
  pub calm : IsCalm (kernel s)
  pub accel : s.dma.accel_lock ≡ 0
  pub sems : (q : ℕ) → (s.dma.sems q).lock ≡ 0
  pub cpus : (c : ℕ) → (this_cpu c (kernel s)).cpu_id < max_cpus

-- What a handler does besides keeps it so.
like-IsQuiet :
    (s s' : Soc)
    → IsQuiet s
    → IsCalm (kernel s')
    → (s'.dma.accel_lock ≡ s.dma.accel_lock) × (s'.dma.sems ≡ s.dma.sems)
    → ((c : ℕ) → (this_cpu c (kernel s')).cpu_id ≡ (this_cpu c (kernel s)).cpu_id)
    → IsQuiet s'
like-IsQuiet s s' q c (a, m) same = record {
  calm = c;
  accel = a ∙ q.accel;
  sems = λ i. ap (λ f. (f i).lock) m ∙ q.sems i;
  cpus = λ d. omega (arith, same d, q.cpus d);
}

eoi-IsQuiet : (id : ℕ) (s : Soc) → IsQuiet s → IsQuiet (eoi id s)
unfolding eoi
eoi-IsQuiet id s q = record { calm = q.calm; accel = q.accel; sems = q.sems; cpus = q.cpus }

locals-IsQuiet :
    (l : ℕ → CpuLocal) (s : Soc)
    → ((c : ℕ) → (l c).cpu_id ≡ (this_cpu c (kernel s)).cpu_id)
    → IsQuiet s
    → IsQuiet (set_kernel (record (kernel s) { cpu_locals = l }) s)
locals-IsQuiet l s same q =
    like-IsQuiet s (set_kernel (record (kernel s) { cpu_locals = l }) s) q
      (record {
        valid = q.calm.valid;
        free = q.calm.free;
        quiet = q.calm.quiet;
        online = q.calm.online;
      })
      (refl, refl) same

go_on-IsQuiet : (counted : Bool) (me n : ℕ) (s : Soc) → IsQuiet s → IsQuiet (go_on counted me n s).1
unfolding go_on count_switch update
go_on-IsQuiet counted me n s q = elim (Bool-cases (n == current me (kernel s))) [
  | inl e ↦ rw (e, go_on) q
  | inr e ↦ elim (Bool-cases counted) [
    | inl b ↦ rw (e, b, go_on) (locals-IsQuiet _ s (λ c. ground arith) q)
    | inr b ↦ rw (e, b, go_on) (locals-IsQuiet _ s (λ c. ground arith) q)
  ]
]

dma_irq-IsQuiet :
    (me id status : ℕ) (dev : ℕ → Device) (s : Soc)
    → IsQuiet s
    → (s' : Soc) × (dma_irq me id status dev s ≡ some s') × IsQuiet s'
unfolding dma_irq
dma_irq-IsQuiet me id status dev s q =
    let acked : Dma = record s.dma { accel = accel_irq_ack 1 s.dma.accel } in
    let (d, e, z, f, c, l) =
      dispatch-IsCalm me dev acked q.accel (record { sems = q.sems; queues = q.calm.free })
        q.calm in
    let me' = (this_cpu me (kernel s)).cpu_id in
    let counted : Soc = record s {
      dma_irq_count = update s.dma_irq_count me' ((s.dma_irq_count me' + 1) % 2 ^ 64);
    } in
    elim (Bool-cases (status % 2 == 1)) [
      | inl b ↦
          let s' : Soc = record counted { dma = d } in
          (
            eoi id s',
            rw (b, e) refl,
            eoi-IsQuiet id s' (record {
              calm = c;
              accel = z;
              sems = f.sems;
              cpus = λ i. omega (arith, ap (λ (h : ℕ → CpuLocal). (h i).cpu_id) l, q.cpus i);
            }),
          )
      | inr b ↦ (
        eoi id counted,
        rw b refl,
        eoi-IsQuiet id counted
            (record { calm = q.calm; accel = q.accel; sems = q.sems; cpus = q.cpus }),
      )
    ]

balance_tick-IsQuiet :
    (me : ℕ) (s : Soc) → IsQuiet s → (s' : Soc) × (balance_tick me s ≡ some s') × IsQuiet s'
unfolding balance_tick
balance_tick-IsQuiet me s q = elim (Bool-cases (leb 200 ((s.lb_tick_count + 1) % 2 ^ 32))) [
  | inl due ↦
      let (k, e, b) =
        sched_load_balance_pass_lem me (kernel s) q.calm.valid q.calm.online (λ c lt. q.calm.free c)
          q.calm.quiet in
      let s' : Soc = set_kernel k (record s { lb_tick_count = 0 }) in
      (
        s',
        rw (due, e) refl,
        like-IsQuiet s s' q (Balanced-IsCalm b q.calm) (refl, refl)
            (λ c. ap (λ (l : ℕ → CpuLocal). (l c).cpu_id) (Balanced-locals b)),
      )
  | inr early ↦
      let s' : Soc = record s { lb_tick_count = (s.lb_tick_count + 1) % 2 ^ 32 } in
      (s', rw early refl, like-IsQuiet s s' q q.calm (refl, refl) (λ c. refl))
]

-- A handler comes back, and the machine is quiet again.
abbrev Settles : Option (IrqEnd × Soc) → Type 0
Settles result = (out : IrqEnd × Soc) × (result ≡ some out) × IsQuiet out.1

count_call-IsQuiet :
    (me : ℕ) (s : Soc) → IsQuiet s → IsQuiet (set_kernel (count_call me (kernel s)) s)
unfolding count_call update
count_call-IsQuiet me s q = locals-IsQuiet _ s (λ c. ground arith) q

module _ (me id : ℕ) (s : Soc) (q : IsQuiet s) where
  secondary_tick-Settles : Settles (secondary_tick me id s)
  unfolding secondary_tick
  secondary_tick-Settles =
      let (n, s1, e, t) = tick_lem me s (q.cpus me) q.calm in
      let q1 = like-IsQuiet s s1 q t.calm t.same_rest t.same_ids in
      let s2 : Soc = eoi id (set_kernel (count_call me (kernel s1)) s1) in
      (
        go_on true me n s2,
        rw e refl,
        go_on-IsQuiet true me n s2 (eoi-IsQuiet id _ (count_call-IsQuiet me s1 q1)),
      )

  first_tick-Settles : (balances : Bool) → Settles (first_tick balances me id s)
  unfolding first_tick
  first_tick-Settles balances =
      let (n, s1, e, t) = tick_lem me s (q.cpus me) q.calm in
      let q1 = eoi-IsQuiet id s1 (like-IsQuiet s s1 q t.calm t.same_rest t.same_ids) in
      let (s2, b, q2) = balance_tick-IsQuiet me (eoi id s1) q1 in
      elim (Bool-cases balances) [
        | inl on ↦ (go_on false me n s2, rw (on, e, b) refl, go_on-IsQuiet false me n s2 q2)
        | inr off ↦ (
          go_on false me n (eoi id s1),
          rw (off, e) refl,
          go_on-IsQuiet false me n (eoi id s1) q1,
        )
      ]

irq_handler-Settles :
    (balances : Bool) (me id status : ℕ) (dev : ℕ → Device) (s : Soc)
    → IsQuiet s
    → Settles (irq_handler balances me id status dev s)
unfolding irq_handler secondary_irq
irq_handler-Settles balances me id status dev s q =
    let (first, e1, q1) = first_tick-Settles me id s q balances in
    let (second, e2, q2) = secondary_tick-Settles me id s q in
    let (s3, e3, q3) = dma_irq-IsQuiet me id status dev s q in
    let q4 = eoi-IsQuiet id s q in
    elim (Bool-cases ((this_cpu me (kernel s)).cpu_id == 0)) [
      | inl zero_core ↦ elim (Bool-cases (id == timer_irq_id)) [
        | inl timer ↦ (first, rw (zero_core, timer) e1, q1)
        | inr timer ↦ elim (Bool-cases (id == dma_accel_irq_id)) [
          | inl dma ↦ ((resumes, s3), rw (zero_core, timer, dma, e3) refl, q3)
          | inr dma ↦ ((resumes, eoi id s), rw (zero_core, timer, dma) refl, q4)
        ]
      ]
      | inr other ↦ elim (Bool-cases (leb 1020 id)) [
        | inl spurious ↦ ((resumes, s), rw (other, spurious) refl, q)
        | inr real ↦ elim (Bool-cases (id == timer_irq_id)) [
          | inl timer ↦ (second, rw (other, real, timer) e2, q2)
          | inr timer ↦ elim (Bool-cases (id == dma_accel_irq_id)) [
            | inl dma ↦ ((resumes, s3), rw (other, real, timer, dma, e3) refl, q3)
            | inr dma ↦ ((resumes, eoi id s), rw (other, real, timer, dma) refl, q4)
          ]
        ]
      ]
    ]

-- An interrupt: the core that takes it, its number, and what the accelerator answers.
pub record Interrupt : Type 0 where
  pub core : ℕ
  pub id : ℕ
  pub status : ℕ
  pub dev : ℕ → Device

-- Interrupts one after the other, on any cores
unfoldable pub handle_all : Bool → List Interrupt → Soc → Option Soc
handle_all balances [] s = some s
handle_all balances (i ∷ rest) s = do
  (end, s1) ← irq_handler balances i.core i.id i.status i.dev s
  handle_all balances rest s1

-- From a quiet machine, any sequence of interrupts, with any numbers, on any cores and whatever the
-- accelerator answers, is handled to the end. The machine is quiet again: the run queues are
-- well-formed, no lock is held, and the cores have numbers in range.
pub handle_all_lem :
    (balances : Bool) (interrupts : List Interrupt) (s : Soc)
    → IsQuiet s
    → (s' : Soc) × (handle_all balances interrupts s ≡ some s') × IsQuiet s'
unfolding handle_all
handle_all_lem balances [] s q = (s, refl, q)
handle_all_lem balances (i ∷ rest) s q =
    let (out, e, q1) = irq_handler-Settles balances i.core i.id i.status i.dev s q in
    let (s', r, q2) = handle_all_lem balances rest out.1 q1 in (s', rw e r, q2)
