-- ===== src/Irq.antt =====
-- The interrupt handlers of kernel/main.c, `secondary_irq` and `irq_handler`, without DEBUG_HOOKS.
-- What the interrupt controller and the accelerator answer, the interrupt's number and the status
-- word, are arguments.

pub mod Total
pub mod Laws
pub mod Keep
pub mod Calm
use aarch64_rtos.Prelude.{
  ℕ, ◌+◌, ◌/◌, ◌%◌, ◌^◌, ◌>>=◌, Bool, true, false, Option, none, some, List, ◌==◌, leb,
  if◌then◌else◌, update,
}
use aarch64_rtos.Kernel.{Kernel, CpuLocal}
use aarch64_rtos.Sched.Run.{this_cpu, current, set_current, pick_next_ready, sched_on_tick}
use aarch64_rtos.Sched.Balance.{sched_load_balance_pass}
use aarch64_rtos.Accel.{Accel, Device}
use aarch64_rtos.Accel.Polled.{accel_irq_ack}
use aarch64_rtos.Dma.{Dma, dispatch_available_completions}
use aarch64_rtos.Gic.{GicWrite, gic_eoi}

abbrev pub timer_irq_id : ℕ
timer_irq_id = 30

abbrev pub dma_accel_irq_id : ℕ
dma_accel_irq_id = 37

-- The state that the handlers work on: the kernel with the accelerator's requests, the writes to the
-- interrupt controller, the value that each core's timer was last armed with, and the counters.
pub record Soc : Type 0 where
  pub dma : Dma
  pub gic : List GicWrite
  pub tval : ℕ → ℕ
  pub tick_freq : ℕ
  pub dma_irq_count : ℕ → ℕ
  pub lb_tick_count : ℕ

-- How a handler ends: it comes back to the task that it interrupted, or the core goes on with another
-- task by `switch_to`.
pub data IrqEnd : Type 0 where
  resumes : IrqEnd
  switches_to : (prev next : ℕ) → IrqEnd

abbrev pub kernel : Soc → Kernel
kernel s = s.dma.kernel

abbrev pub set_kernel : Kernel → Soc → Soc
set_kernel k s = record s { dma = record s.dma { kernel = k } }

abbrev pub set_local : ℕ → CpuLocal → Kernel → Kernel
set_local me l k = record k { cpu_locals = update k.cpu_locals me l }

-- `this_cpu()->irq_count++`
unfoldable pub count_irq : ℕ → Kernel → Kernel
count_irq me k =
    let l = this_cpu me k in set_local me (record l { irq_count = (l.irq_count + 1) % 2 ^ 64 }) k

unfoldable pub count_call : ℕ → Kernel → Kernel
count_call me k =
    let l = this_cpu me k in
    set_local me (record l { sched_calls = (l.sched_calls + 1) % 2 ^ 64 }) k

unfoldable pub count_switch : ℕ → Kernel → Kernel
count_switch me k =
    let l = this_cpu me k in
    set_local me (record l { context_switches = (l.context_switches + 1) % 2 ^ 64 }) k

unfoldable pub timer_rearm : ℕ → ℕ → Soc → Soc
timer_rearm me ticks s = record s { tval = update s.tval me ticks }

unfoldable pub eoi : ℕ → Soc → Soc
eoi id s = record s { gic = gic_eoi id s.gic }

-- The tick up to the choice of the next task: count, arm the timer again, account, choose.
unfoldable pub tick : ℕ → Soc → Option (ℕ × Soc)
tick me s =
    let s1 = timer_rearm me (s.tick_freq / 2000) (set_kernel (count_irq me (kernel s)) s) in
    do (n, k) ← pick_next_ready me (sched_on_tick me (kernel s1)); some (n, set_kernel k s1)

-- `if (n != current) { prev = current; current = n; … switch_to(&prev->sp, n->sp); }`
unfoldable pub go_on : Bool → ℕ → ℕ → Soc → IrqEnd × Soc
go_on counted me n s =
    let k = set_current me n (kernel s) in
    if n == current me (kernel s) then (resumes, s) else (
      switches_to (current me (kernel s)) n,
      set_kernel (if counted then count_switch me k else k) s,
    )

-- The branch for the accelerator, the same on all cores.
unfoldable pub dma_irq : ℕ → ℕ → ℕ → (ℕ → Device) → Soc → Option Soc
dma_irq me id status dev s =
    let c = (this_cpu me (kernel s)).cpu_id in
    let s1 = record s {
      dma_irq_count = update s.dma_irq_count c ((s.dma_irq_count c + 1) % 2 ^ 64);
    } in
    let acked = record s1.dma { accel = accel_irq_ack 1 s1.dma.accel } in
    let dispatched = dispatch_available_completions me dev acked in
    if status % 2 == 1
    then (dispatched >>= λ d. some (eoi id (record s1 { dma = d })))
    else some (eoi id s1)

unfoldable pub secondary_tick : ℕ → ℕ → Soc → Option (IrqEnd × Soc)
secondary_tick me id s = do
  (n, s1) ← tick me s
  some (go_on true me n (eoi id (set_kernel (count_call me (kernel s1)) s1)))

unfoldable pub secondary_irq : ℕ → ℕ → ℕ → (ℕ → Device) → Soc → Option (IrqEnd × Soc)
secondary_irq me id status dev s =
    if leb 1020 id
    then some (resumes, s)
    else if id == timer_irq_id
    then secondary_tick me id s
    else if id == dma_accel_irq_id
    then (dma_irq me id status dev s >>= λ s1. some (resumes, s1))
    else some (resumes, eoi id s)

-- `if (++lb_tick_count >= 200) { lb_tick_count = 0; sched_load_balance_pass(); }`, in a build with
-- LOAD_BALANCE_SELFTEST
unfoldable pub balance_tick : ℕ → Soc → Option Soc
balance_tick me s =
    let n = (s.lb_tick_count + 1) % 2 ^ 32 in
    let pass = sched_load_balance_pass me (kernel s) in
    if leb 200 n
    then (pass >>= λ k. some (set_kernel k (record s { lb_tick_count = 0 })))
    else some (record s { lb_tick_count = n })

unfoldable pub first_tick : Bool → ℕ → ℕ → Soc → Option (IrqEnd × Soc)
first_tick balances me id s = do
  (n, s1) ← tick me s
  s2 ← if balances then balance_tick me (eoi id s1) else some (eoi id s1)
  some (go_on false me n s2)

-- `balances` says whether the kernel is built with LOAD_BALANCE_SELFTEST.
unfoldable pub irq_handler : Bool → ℕ → ℕ → ℕ → (ℕ → Device) → Soc → Option (IrqEnd × Soc)
irq_handler balances me id status dev s =
    let secondary = secondary_irq me id status dev s in
    let ticked = first_tick balances me id s in
    let completed = dma_irq me id status dev s >>= λ s1. some (resumes, s1) in
    if (this_cpu me (kernel s)).cpu_id == 0
    then if id == timer_irq_id
      then ticked
      else if id == dma_accel_irq_id
      then completed
      else some (resumes, eoi id s)
    else secondary
