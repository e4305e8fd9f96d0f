-- ===== src/Boot/Main.antt =====
-- `kernel_main` of kernel/main.c, from its entry to the switch to the first task.
pub mod Laws
use aarch64_rtos.Prelude.{ℕ, ◌==◌, ◌>>=◌, Option, some, if◌then◌else◌, codes, update}
use aarch64_rtos.Kernel.{Kernel}
use aarch64_rtos.Uart.{uart_puts}
use aarch64_rtos.Pci.{Bus, PciDev, pci_find_dma_accel}
use aarch64_rtos.Accel.Polled.{accel_setup_queues}
use aarch64_rtos.Irq.{kernel, set_kernel}
use aarch64_rtos.Boot.{Image, Smp, Firmware, Seen, task_worker, percpu_init, boot}

-- The software with the PCI bus, and where `g_bar0` points.
pub record Board (B : Bus) : Type 0 where
  pub smp : Smp
  pub bus : B.State
  pub g_bar0 : ℕ

-- How `kernel_main` ends: in the loop behind a message, or by a switch to the stack pointer of a task.
pub data MainEnd : Type 0 where
  halts : MainEnd
  enters : (sp : ℕ) → MainEnd

-- What the linker and the firmware give: where the vectors and the two rings are, and the entry of the
-- secondary cores.
pub record Layout : Type 0 where
  pub image : Image
  pub vectors : ℕ
  pub sq_ring : ℕ
  pub cq_ring : ℕ
  pub entry : ℕ

module _ (B : Bus) where
  unfoldable pub accel_init : ℕ → Board B → Board B
  accel_init bar0_phys m = record m { g_bar0 = bar0_phys }

  unfoldable pub set_vbar : ℕ → Smp → Smp
  set_vbar vectors s = record s { vbar = update s.vbar 0 vectors }

  -- `accel_init(d.bar0_phys); accel_setup_queues();`
  unfoldable pub start_accel : Layout → PciDev → Board B → Board B
  start_accel at d m =
      let m1 = accel_init d.bar0_phys m in
      let dma = m1.smp.soc.dma in
      record m1 {
        smp = record m1.smp {
          soc = record m1.smp.soc {
            dma = record dma { accel = accel_setup_queues at.sq_ring at.cq_ring dma.accel };
          };
        };
      }

  -- `percpu_init(0)`, `set_vbar()` and the first line of output
  unfoldable pub start_main : Layout → Board B → Option (Board B)
  start_main at m =
      let s =
        set_vbar at.vectors
          (record m.smp { soc = set_kernel (percpu_init 0 (kernel m.smp.soc)) m.smp.soc }) in
      do
        k ← uart_puts 0 (codes "P4 M7: full integration test boot OK\r\n") (kernel s.soc)
        some (record m { smp = record s { soc = set_kernel k s.soc } })

  -- What follows the search when there is no accelerator.
  unfoldable pub give_up : Board B → Option (MainEnd × Board B)
  give_up m = do
    k ← uart_puts 0 (codes "P4 M7: dma-accel NOT FOUND\r\n") (kernel m.smp.soc)
    some (halts, record m { smp = record m.smp { soc = set_kernel k m.smp.soc } })

  -- What follows the search; `junk` is what the line's buffer held before, `mpidr` and `freq` are what
  -- the registers hold, and `n` is the number of cores that come up.
  unfoldable pub with_accel :
      (ℕ → ℕ)
      → Layout
      → Firmware
      → Seen
      → (ℕ → ℕ)
      → ℕ
      → ℕ
      → Board B
      → PciDev × B.State
      → Option (MainEnd × Board B)
  with_accel junk at call seen mpidr freq n m (d, bus) =
      let m1 : Board B = record m { bus = bus } in
      let m2 = start_accel at d m1 in
      let booted = do
        s ← boot junk at.image call at.entry seen mpidr freq n m2.smp
        let first = (kernel s.soc).tcbs (at.image.address (task_worker 0))
        some (enters first.sp, record m2 { smp = s })
      in if d.found == 0 then give_up m1 else booted

  -- `junk_dev` is what `d` held before.
  unfoldable pub kernel_main :
      (ℕ → ℕ)
      → PciDev
      → Layout
      → Firmware
      → Seen
      → (ℕ → ℕ)
      → ℕ
      → ℕ
      → Board B
      → Option (MainEnd × Board B)
  kernel_main junk junk_dev at call seen mpidr freq n m = do
    m1 ← start_main at m
    with_accel junk at call seen mpidr freq n m1 (pci_find_dma_accel B junk_dev m1.bus)
