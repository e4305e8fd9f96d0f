-- ===== src/Boot/Main/Laws.antt =====
-- Where `kernel_main` ends.
use Prim.Native.Nat.{bit_and}
use aarch64_rtos.Prelude.{
  ℕ, sym, subst, ◌+◌, ◌*◌, ◌^◌, ◌≤◌, ◌<◌, ◌≡◌, ◌&&◌, ◌++◌, refl, Option, some, [], ◌==◌, ltb, true,
  codes, update, arith,
}
use aarch64_rtos.Kernel.{Kernel}
use aarch64_rtos.Uart.Laws.{uart_puts_lem}
use aarch64_rtos.Pci.{
  Bus, PciDev, pcie_mmio32_base, pci_command, pci_bar0, ecam_addr, configure, pci_find_dma_accel,
}
use aarch64_rtos.Pci.Bar.{HasBar, configure_lem}
use aarch64_rtos.Pci.Find.{IsAccel, Scanned, pci_find_lem, absent, present}
use aarch64_rtos.Accel.{Accel, reg_write, dma_accel_queue_depth}
use aarch64_rtos.Accel.Polled.{accel_setup_queues}
use aarch64_rtos.Irq.{kernel, set_kernel}
use aarch64_rtos.Boot.{Firmware, Seen, spin_limit, psci_cpu_on, task_worker, percpu_init}
use aarch64_rtos.Boot.Listed.{IsListed, percpu_init-IsListed, counted-IsListed}
use aarch64_rtos.Boot.Tasks.{IsUp, boot_lem}
use aarch64_rtos.Boot.Main.{
  Board, MainEnd, halts, enters, Layout, accel_init, set_vbar, start_accel, start_main, give_up,
  with_accel, kernel_main,
}

-- The device has been told where the two rings of sixteen entries are, and to raise its interrupt.
pub record HasRings (at : Layout) (a : Accel) : Type 0 where
  pub sq : a.regs 0x44 * 2 ^ 32 + a.regs 0x40 ≡ at.sq_ring
  pub cq : a.regs 0x54 * 2 ^ 32 + a.regs 0x50 ≡ at.cq_ring
  pub sizes : (a.regs 0x48 ≡ dma_accel_queue_depth) × (a.regs 0x58 ≡ dma_accel_queue_depth)
  pub mask : a.regs 0x38 ≡ 7

setup-HasRings :
    (at : Layout) (a : Accel)
    → at.sq_ring < 2 ^ 64
    → at.cq_ring < 2 ^ 64
    → HasRings at (accel_setup_queues at.sq_ring at.cq_ring a)
unfolding accel_setup_queues reg_write update
setup-HasRings at a sq cq = record {
  sq = omega (arith, sq);
  cq = omega (arith, cq);
  sizes = (refl, refl);
  mask = refl;
}

-- How `kernel_main` ends on `n` cores: with no accelerator in any slot the core stops, with the bus,
-- the run queues and the interrupt controller as they were; else it goes to the first worker, with the
-- first accelerator set up and the kernel ready.
pub data MainRun (B : Bus) (at : Layout) (n : ℕ) (m : Board B)
    : Option (MainEnd × Board B) → Type 0 where
  no_accel :
      ((dev : ℕ) → 0 ≤ dev → dev < 32 → ¬ IsAccel B m.bus dev)
      → (m' : Board B) → m'.bus ≡ m.bus
      → (kernel m'.smp.soc).runqueues ≡ (kernel m.smp.soc).runqueues
      → m'.smp.soc.gic ≡ m.smp.soc.gic
      → MainRun B at n m (some (halts, m'))
  ready_to_run :
      (dev : ℕ)
      → dev < 32
      → IsAccel B m.bus dev
      → ((e : ℕ) → 0 ≤ e → e < dev → ¬ IsAccel B m.bus e)
      → (m' : Board B) → m'.g_bar0 ≡ pcie_mmio32_base
      → B.read32 m'.bus (ecam_addr 0 dev 0 pci_bar0) ≡ pcie_mmio32_base
      → bit_and (B.read16 m'.bus (ecam_addr 0 dev 0 pci_command)) 6 ≡ 6
      → HasRings at m'.smp.soc.dma.accel
      → IsUp at.image n (kernel m'.smp.soc)
      → MainRun B at n m
          (some (enters ((kernel m'.smp.soc).tcbs (at.image.address (task_worker 0))).sp, m'))

-- Every accelerator on the bus has a memory BAR of 16 bytes to 256 MB.
abbrev pub HasBars : (B : Bus) → B.State → Type 0
HasBars B s = (dev : ℕ) → dev < 32 → IsAccel B s dev → (k : ℕ) × (4 ≤ k) × (k ≤ 28) × HasBar B dev k

module _ (B : Bus) (junk : ℕ → ℕ) (junk_dev : PciDev) (at : Layout) (call : Firmware) (seen : Seen)
    (mpidr : ℕ → ℕ) (freq n : ℕ) (own : (a b : ℕ) → at.image.address a ≡ at.image.address b → a ≡ b)
    (small : (c : ℕ) → seen.id c < 2 ^ 64)
    (stays : (c i : ℕ) → seen.alive c i ≡ true → seen.alive c (i + 1) ≡ true)
    (word : mpidr 0 < 2 ^ 64) (lo : 1 ≤ n) (hi : n ≤ 4)
    (started : (c : ℕ)
      → 1 ≤ c
      → c < 4
      → (psci_cpu_on call c at.entry == 0 && seen.alive c spin_limit) ≡ ltb c n)
    (sq : at.sq_ring < 2 ^ 64) (cq : at.cq_ring < 2 ^ 64) where
  give_up-MainRun :
      (m m1 : Board B)
      → ((dev : ℕ) → 0 ≤ dev → dev < 32 → ¬ IsAccel B m.bus dev)
      → (kernel m1.smp.soc).uart_lock ≡ 0
      → m1.bus ≡ m.bus
      → (kernel m1.smp.soc).runqueues ≡ (kernel m.smp.soc).runqueues
      → m1.smp.soc.gic ≡ m.smp.soc.gic
      → MainRun B at n m (give_up B m1)
  unfolding give_up
  give_up-MainRun m m1 none free b q g =
      rw (uart_puts_lem 0 (codes "P4 M7: dma-accel NOT FOUND\r\n") (kernel m1.smp.soc) free)
        (no_accel none _ b q g)

  booted-MainRun :
      {o : ℕ} (m m1 : Board B) (d : PciDev) (bus : B.State) (dev : ℕ)
      → dev < 32
      → IsAccel B m.bus dev
      → ((e : ℕ) → 0 ≤ e → e < dev → ¬ IsAccel B m.bus e)
      → d.found ≡ 1
      → d.bar0_phys ≡ pcie_mmio32_base
      → B.read32 bus (ecam_addr 0 dev 0 pci_bar0) ≡ pcie_mmio32_base
      → bit_and (B.read16 bus (ecam_addr 0 dev 0 pci_command)) 6 ≡ 6
      → IsListed at.image 1 o [] (kernel m1.smp.soc)
      → MainRun B at n m (with_accel B junk at call seen mpidr freq n m1 (d, bus))
  unfolding with_accel start_accel accel_init
  booted-MainRun {o} m m1 d bus dev lt here first found base bar decodes l =
      let m2 = start_accel B at d (record m1 { bus = bus }) in
      let (s, e, up, accel) =
        boot_lem junk at.image call at.entry seen mpidr freq n o m2.smp own small stays word lo hi
          started l in
      rw (found, e)
        (ready_to_run dev lt here first (record m2 { smp = s }) base bar decodes
          (subst (HasRings at) (sym accel) (setup-HasRings at _ sq cq)) up)

  with_accel-MainRun :
      {o : ℕ} (m m1 : Board B) (r : PciDev × B.State)
      → Scanned B m.bus (record junk_dev { found = 0 }) 0 32 r
      → HasBars B m.bus
      → IsListed at.image 1 o [] (kernel m1.smp.soc)
      → (kernel m1.smp.soc).runqueues ≡ (kernel m.smp.soc).runqueues
      → m1.smp.soc.gic ≡ m.smp.soc.gic
      → MainRun B at n m (with_accel B junk at call seen mpidr freq n m1 r)
  unfolding with_accel configure
  with_accel-MainRun m m1 _ (absent none) bars l q g =
      give_up-MainRun m (record m1 { bus = m.bus }) none l.quiet refl q g
  with_accel-MainRun m m1 _ (present dev le lt here first) bars l q g =
      let (k, lo4, hi28, bar) = bars dev lt here in
      let (_, _, base, at_bar, _, decodes) = configure_lem B dev k bar lo4 hi28 m.bus in
      let (d, bus) = configure B dev m.bus in
      booted-MainRun m m1 d bus dev lt here first refl base at_bar decodes l

  -- With no lock held and no task registered yet, tasks with blocks of their own, the first `n` cores
  -- coming up and every accelerator with a BAR of 16 bytes to 256 MB, `kernel_main` ends. If no slot of
  -- the bus holds the accelerator, the core stops with the bus, the run queues and the interrupt
  -- controller as they were. Else the first such slot has its BAR0 at the base of the MMIO window, decodes
  -- memory and may master the bus, the driver points at that address and has told the device where the
  -- two rings are, every queue is well-formed with each worker on its core, and the
  -- core goes to the saved stack pointer of the first worker.
  pub kernel_main_lem :
      (o : ℕ) (m : Board B)
      → HasBars B m.bus
      → IsListed at.image 0 o [] (kernel m.smp.soc)
      → MainRun B at n m (kernel_main B junk junk_dev at call seen mpidr freq n m)
  unfolding kernel_main start_main set_vbar percpu_init
  kernel_main_lem o m bars l =
      let l1 = percpu_init-IsListed (kernel m.smp.soc) l in
      let text = codes "P4 M7: full integration test boot OK\r\n" in
      let k0 : Kernel = percpu_init 0 (kernel m.smp.soc) in
      let k1 : Kernel = record k0 { uart_out = k0.uart_out ++ text } in
      let m1 : Board B = record m {
        smp = record m.smp { soc = set_kernel k1 m.smp.soc; vbar = update m.smp.vbar 0 at.vectors };
      } in
      rw (uart_puts_lem 0 text k0 l.quiet) (
        with_accel-MainRun m m1 (pci_find_dma_accel B junk_dev m.bus)
          (pci_find_lem B m.bus junk_dev) bars
          (counted-IsListed k0 l1 (kernel m.smp.soc).smp_online k1.uart_out) refl refl)
