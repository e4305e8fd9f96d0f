-- ===== src/Boot.antt =====
-- Bring-up: `smp_boot_secondaries` and `secondary_main` of kernel/smp.c, without SMP_SELFTEST, and the
-- tasks of `kernel_main` (kernel/main.c). The firmware behind `hvc` and what core 0 sees of a core
-- that starts are arguments.
pub mod Start
pub mod Listed
pub mod Tasks
pub mod Main
use Prim.Native.String.{String}
use aarch64_rtos.Prelude.{
  ℕ, zero, suc, ◌+◌, ◌-◌, ◌*◌, ◌/◌, ◌%◌, ◌^◌, ◌>>=◌, Bool, true, false, Option, none, some, List,
  [], ◌∷◌, ◌==◌, leb, ltb, if◌then◌else◌, update, codes,
}
use aarch64_rtos.Kernel.{Kernel, Tcb, ready, max_cpus}
use aarch64_rtos.Uart.{uart_putc, uart_puts, klog}
use aarch64_rtos.Lines.{hex_digit, print_hexline}
use aarch64_rtos.Task.{task_init}
use aarch64_rtos.Gic.{gic_init, gic_init_secondary, gic_enable_irq}
use aarch64_rtos.Sched.Run.{this_cpu, set_current, set_tcb, sched_register_on, sched_register}
use aarch64_rtos.Sched.Migrate.{crlf}
use aarch64_rtos.Irq.{timer_irq_id, dma_accel_irq_id, Soc, kernel, set_kernel}

-- The tasks of the kernel by number, and where the linker put their blocks and entry points.
pub record Image : Type 0 where
  pub address : ℕ → ℕ
  pub entry : ℕ → ℕ
  pub trampoline : ℕ

-- `idle_tcb[c]`, `test_tcb[c][n]`, `pp_tcb[n]`, `taskWorker[n]`, `busy_task`
abbrev pub idle_tcb : ℕ → ℕ
idle_tcb c = c

abbrev pub test_tcb : ℕ → ℕ → ℕ
test_tcb c n = 4 + 2 * c + n

abbrev pub pp_tcb : ℕ → ℕ
pp_tcb n = 12 + n

abbrev pub task_worker : ℕ → ℕ
task_worker n = 14 + n

abbrev pub busy_task : ℕ
busy_task = 17

-- `t->name = name; task_init(t, entry);`
unfoldable pub create : Image → ℕ → String → Kernel → Kernel
create img task name k =
    let t = img.address task in
    set_tcb t (task_init img.trampoline t (img.entry task) (record (k.tcbs t) { name = name })) k

unfoldable pub percpu_init : ℕ → Kernel → Kernel
percpu_init cpu k = record k {
  cpu_locals = update k.cpu_locals cpu (record (k.cpu_locals cpu) { cpu_id = cpu });
}

-- `t->pinned = 1`
unfoldable pub pin : ℕ → Kernel → Kernel
pin t k = set_tcb t (record (k.tcbs t) { pinned = 1 }) k

-- The core's idle task, which stands for the context that it runs in.
unfoldable pub adopt_idle : Image → ℕ → Kernel → Option Kernel
adopt_idle img cpu k =
    let t = img.address (idle_tcb cpu) in
    let k1 = set_tcb t (record (k.tcbs t) { name = "idle"; state = ready }) k in
    sched_register_on cpu cpu t (set_current cpu t k1)

-- `t->name = name; task_init(t, entry); sched_register_on(cpu_id, t);`
unfoldable pub add_task : Image → ℕ → ℕ → String → Kernel → Option Kernel
add_task img cpu task name k = sched_register_on cpu cpu (img.address task) (create img task name k)

unfoldable pub add_pinned : Image → ℕ → ℕ → String → Kernel → Option Kernel
add_pinned img cpu task name k =
    sched_register_on cpu cpu (img.address task) (pin (img.address task) (create img task name k))

-- The ping task on core 1, the pong task on core 2.
unfoldable pub add_ping_pong : Image → ℕ → Kernel → Option Kernel
add_ping_pong img cpu k =
    let ping = add_pinned img cpu (pp_tcb 0) "ping" k in
    let pong = add_pinned img cpu (pp_tcb 1) "pong" k in
    if cpu == 1 then ping else if cpu == 2 then pong else some k

unfoldable pub adopt_tasks : Image → ℕ → Kernel → Option Kernel
adopt_tasks img cpu k = do
  k1 ← adopt_idle img cpu k
  k2 ← add_task img cpu (test_tcb cpu 0) "sectest" k1
  k3 ← add_task img cpu (test_tcb cpu 1) "sectest" k2
  add_ping_pong img cpu k3

-- The state of kernel/smp.c beside the kernel's, and VBAR_EL1 of each core.
pub record Smp : Type 0 where
  pub soc : Soc
  pub vbar : ℕ → ℕ
  pub boot_vbar : ℕ
  pub cpu_alive : ℕ → ℕ
  pub cpu_mpidr : ℕ → ℕ
  pub cpu_seen_id : ℕ → ℕ

abbrev pub set_daif : ℕ → ℕ → Kernel → Kernel
set_daif cpu d k = record k { daif = update k.daif cpu d }

-- The last steps of a secondary core: its part of the interrupt controller, its timer, and the IRQ
-- mask (bit 7 of DAIF) off.
unfoldable pub start_interrupts : ℕ → ℕ → Smp → Smp
start_interrupts cpu freq s = record s {
  soc = record s.soc {
    dma = record s.soc.dma { kernel = set_daif cpu (960 - 128) (kernel s.soc) };
    gic = gic_enable_irq 30 (gic_init_secondary s.soc.gic);
    tval = update s.soc.tval cpu (freq / 2000);
  };
}

-- A core with a number that is out of range stops. `mpidr` and `freq` are what its registers hold.
-- All four bits of DAIF are set on entry (960).
unfoldable pub secondary_main : Image → ℕ → ℕ → ℕ → Smp → Option Smp
secondary_main img mpidr freq cpu s =
    let k = percpu_init cpu (set_daif cpu 960 (kernel s.soc)) in
    let here = record s {
      vbar = update s.vbar cpu s.boot_vbar;
      cpu_alive = update s.cpu_alive cpu 1;
      cpu_mpidr = update s.cpu_mpidr cpu mpidr;
      cpu_seen_id = update s.cpu_seen_id cpu (this_cpu cpu k).cpu_id;
    } in
    let started = do
      k1 ← adopt_tasks img cpu k
      some (start_interrupts cpu freq (record here { soc = set_kernel k1 s.soc }))
    in if leb max_cpus cpu then none else started

-- The firmware's answer to a call with these four registers.
abbrev pub Firmware : Type 0
Firmware = ℕ → ℕ → ℕ → ℕ → ℕ

-- `(int)psci_call(PSCI_CPU_ON, target, entry, 0)`, as a 32-bit word
unfoldable pub psci_cpu_on : Firmware → ℕ → ℕ → ℕ
psci_cpu_on call target entry = call 0xC4000003 target entry 0 % 2 ^ 32

-- What core 0 sees of the others: `cpu_alive[cpu]` at its n-th look, and then the two other arrays.
pub record Seen : Type 0 where
  pub alive : ℕ → ℕ → Bool
  pub mpidr : ℕ → ℕ
  pub id : ℕ → ℕ

abbrev pub spin_limit : ℕ
spin_limit = 50000000

-- `while (!cpu_alive[cpu] && ++spins < 50000000) { }`, with `left` looks left; the result is the
-- number of looks.
unfoldable pub await_alive : ℕ → (ℕ → Bool) → ℕ → ℕ
await_alive zero alive n = n
await_alive (suc left) alive n = elim (alive n) [
  | true ↦ n + 1
  | false ↦ await_alive left alive (n + 1)
]

unfoldable pub put_nibbles : ℕ → ℕ → Kernel → Kernel
put_nibbles zero v k = k
put_nibbles (suc rounds) v k =
    put_nibbles rounds v (uart_putc (hex_digit (v / 2 ^ (rounds * 4) % 16)) k)

unfoldable pub put_hex : ℕ → Kernel → Option Kernel
put_hex v k = uart_puts 0 (codes "0x") k >>= λ k1. some (put_nibbles 16 v k1)

abbrev pub is_negative : ℕ → Bool
is_negative rc = leb (2 ^ 31) rc

-- `rc < 0 ? -rc : rc`
abbrev pub magnitude : ℕ → ℕ
magnitude rc = if is_negative rc then 2 ^ 32 - rc else rc

-- What is logged of a core that came up.
unfoldable pub log_alive : Seen → ℕ → Kernel → Option Kernel
log_alive seen cpu k = do
  k1 ← klog 0 (codes "CPU") cpu true (codes ": alive, MPIDR_EL1=") k
  k2 ← put_hex (seen.mpidr cpu) k1
  klog 0 (codes " this_cpu()->cpu_id=") (seen.id cpu) true crlf k2

unfoldable pub log_timeout : ℕ → Kernel → Option Kernel
log_timeout cpu k = klog 0 (codes "CPU") cpu true (codes ": did NOT come up (timeout)\r\n") k

-- The wait for a core, and the look at it after that.
unfoldable pub wait_for : Seen → ℕ → ℕ → Kernel → Option (ℕ × Kernel)
wait_for seen cpu online k =
    let up = log_alive seen cpu k >>= λ k1. some (online + 1, k1) in
    let down = log_timeout cpu k >>= λ k1. some (online, k1) in
    if seen.alive cpu (await_alive spin_limit (seen.alive cpu) 0) then up else down

-- One round of the loop over the cores.
unfoldable pub start_cpu : Firmware → ℕ → Seen → ℕ → ℕ → Kernel → Option (ℕ × Kernel)
start_cpu call entry seen cpu online k =
    let rc = psci_cpu_on call cpu entry in
    do
      let text = if is_negative rc then codes " rc=-" else codes " rc="
      k1 ← klog 0 (codes "CPU0: psci_cpu_on target=") cpu true text k
      k2 ← klog 0 [] (magnitude rc) true crlf k1
      if rc == 0 then wait_for seen cpu online k2 else some (online, k2)

-- `for (cpu = 1; cpu < MAX_CPUS; cpu++)`, with `rounds` rounds left
unfoldable pub start_cpus : ℕ → Firmware → ℕ → Seen → ℕ → ℕ → Kernel → Option (ℕ × Kernel)
start_cpus zero call entry seen cpu online k = some (online, k)
start_cpus (suc rounds) call entry seen cpu online k = do
  (online1, k1) ← start_cpu call entry seen cpu online k
  start_cpus rounds call entry seen (cpu + 1) online1 k1

unfoldable pub smp_boot_secondaries : Firmware → ℕ → Seen → ℕ → Smp → Option Smp
smp_boot_secondaries call entry seen mpidr s = do
  (online, k) ← start_cpus (max_cpus - 1) call entry seen 1 1 (kernel s.soc)
  k1 ← klog 0 (codes "CPUs online: ") online true crlf k
  some (record s {
    soc = set_kernel (record k1 { smp_online = online }) s.soc;
    boot_vbar = s.vbar 0;
    cpu_mpidr = update s.cpu_mpidr 0 mpidr;
    cpu_alive = update s.cpu_alive 0 1;
  })

-- `for (i = 0; i < NUM_WORKERS; i++) { … task_init … }`, the busy task, and
-- `current = &taskWorker[0]`
unfoldable pub create_tasks : Image → Kernel → Kernel
create_tasks img k =
    let k1 = create img (task_worker 0) "worker" k in
    let k2 = create img (task_worker 1) "worker" k1 in
    let k3 = create img (task_worker 2) "worker" k2 in
    set_current 0 (img.address (task_worker 0)) (create img busy_task "busy" k3)

-- `sched_register_on(i % smp_online, &taskWorker[i])`
unfoldable pub place_worker : Image → ℕ → Kernel → Option Kernel
place_worker img i k = sched_register_on 0 (i % k.smp_online) (img.address (task_worker i)) k

unfoldable pub place_tasks : Image → Kernel → Option Kernel
place_tasks img k = do
  k1 ← place_worker img 0 k
  k2 ← place_worker img 1 k1
  k3 ← place_worker img 2 k2
  sched_register 0 (img.address busy_task) k3

-- What `kernel_main` does before the other cores start, from the reading of the timer's frequency on:
-- the tasks, the interrupts of the timer and of the accelerator (without DMA_IRQ_CPU), and the
-- timer.
unfoldable pub start_tasks : Image → ℕ → Smp → Smp
start_tasks img freq s =
    let k = create_tasks img (kernel s.soc) in
    record s {
      soc = record s.soc {
        dma = record s.soc.dma { kernel = k };
        gic = gic_enable_irq dma_accel_irq_id (gic_enable_irq timer_irq_id (gic_init s.soc.gic));
        tick_freq = freq;
        tval = update s.soc.tval 0 (freq / 2000);
      };
    }

-- The cores from `cpu` on run `secondary_main`, with `rounds` cores left.
unfoldable pub run_secondaries : Image → (ℕ → ℕ) → ℕ → ℕ → ℕ → Smp → Option Smp
run_secondaries img mpidr freq zero cpu s = some s
run_secondaries img mpidr freq (suc rounds) cpu s =
    secondary_main img (mpidr cpu) freq cpu s >>= run_secondaries img mpidr freq rounds (cpu + 1)

-- The bring-up of `n` cores: `kernel_main` from the creation of the tasks to `smp_boot_secondaries`, `secondary_main` on each core
-- that it started, and the placement of the tasks by `kernel_main`. `junk` is what the buffer of the
-- line held.
unfoldable pub boot : (ℕ → ℕ) → Image → Firmware → ℕ → Seen → (ℕ → ℕ) → ℕ → ℕ → Smp → Option Smp
boot junk img call entry seen mpidr freq n s = do
  let s1 = start_tasks img freq s
  k ← print_hexline junk 0 (codes "CPU0: MPIDR_EL1=") (mpidr 0) (kernel s1.soc)
  s2 ← smp_boot_secondaries call entry seen (mpidr 0) (record s1 { soc = set_kernel k s1.soc })
  s3 ← run_secondaries img mpidr freq (n - 1) 1 s2
  k1 ← place_tasks img (kernel s3.soc)
  some (record s3 { soc = set_kernel k1 s3.soc })
