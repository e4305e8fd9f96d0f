-- ===== src/Tests/Hardware.antt =====
-- The theorems on lines, the PCI bus, the interrupt controller and the interrupt handlers, at concrete
-- inputs: an accelerator with a BAR of 1 MB in slot 2 of the bus.
use aarch64_rtos.Prelude.{
  ℕ, ◌-◌, ◌*◌, ◌/◌, ◌%◌, ◌^◌, ◌≡◌, ap, ◌∙◌, true, refl, arith, Bool, some, List, [], ◌∷◌, ◌++◌,
  ◌==◌, if◌then◌else◌,
}
use aarch64_rtos.Kernel.{Kernel}
use aarch64_rtos.Sched.Run.{this_cpu, pick_next_ready}
use aarch64_rtos.Sched.Race.{Stolen, pick_then_migrate}
use aarch64_rtos.Pci.{
  Bus, PciDev, pci_vendor_id, pci_device_id, pci_command, pci_bar0, pci_interrupt_pin, ecam_addr,
}
use aarch64_rtos.Pci.Bar.{HasBar}
use aarch64_rtos.Irq.{set_kernel, Soc, IrqEnd, irq_handler}
use aarch64_rtos.Irq.Total.{IsCalm}
use aarch64_rtos.Sync.Sem.{sem_init}
use aarch64_rtos.Irq.Calm.{IsQuiet, Interrupt, handle_all, handle_all_lem}
use aarch64_rtos.Irq.Laws.{signalled, Ends, irq_handler_lem}
use aarch64_rtos.Sched.Policy.{load_aware_select_next}
use aarch64_rtos.Sched.Scan.{lightest}
use aarch64_rtos.Sched.Run.{set_rq}
use aarch64_rtos.Sched.Locked.{pick_next_ready_lem}
use aarch64_rtos.Tests.Devices.{dma, two_ready}
use aarch64_rtos.Tests.Fixtures.{demo, local}
use aarch64_rtos.Tests.Valid.{demo-IsValid}

-- The command register, and BAR0 without its 20 low bits.
pub record Registers : Type 0 where
  command : ℕ
  bar : ℕ

abbrev pub at : ℕ → ℕ → Bool
at addr reg = addr == ecam_addr 0 2 0 reg

abbrev pub bus : Bus
bus = record {
  State = Registers;
  read8 = λ s addr. if at addr pci_interrupt_pin then 1 else 0;
  read16 = λ s addr.
      if at addr pci_vendor_id
      then 0x1234
      else if at addr pci_device_id
      then 0xda00
      else if at addr pci_command
      then s.command
      else 0xFFFF;
  read32 = λ s addr. if at addr pci_bar0 then s.bar * 2 ^ 20 else 2 ^ 32 - 1;
  write16 = λ s addr v. if at addr pci_command then record s { command = v } else s;
  write32 = λ s addr v. if at addr pci_bar0 then record s { bar = v / 2 ^ 20 } else s;
}

pub bus-HasBar : HasBar bus 2 20
unfolding ecam_addr
bus-HasBar = record {
  holds = λ s v. refl;
  aligned = λ s. omega arith;
  pin32 = λ s a v. refl;
  pin16 = λ s a v. refl;
  bar16 = λ s v. refl;
  command = λ s v. refl;
}

abbrev pub reset : Registers
reset = record { command = 2; bar = 0 }

abbrev pub junk : PciDev
junk = record {
  bus = 9;
  dev = 9;
  func = 9;
  bar0_phys = 9;
  bar0_size = 9;
  bar0_readback = 9;
  gic_spi = 9;
  found = 9;
}

-- The kernel after core 1 has picked task 3.
abbrev picked : Kernel
picked = set_rq 1 (load_aware_select_next demo.tcbs 2 (demo.runqueues 1)).1 demo

picks_3 : (load_aware_select_next demo.tcbs 2 (demo.runqueues 1)).0 ≡ 3
unfolding load_aware_select_next lightest
picks_3 = refl

pick_next_ready-picked : pick_next_ready 1 demo ≡ some (3, picked)
pick_next_ready-picked = pick_next_ready_lem 1 demo refl ∙ ap (λ n. some (n, picked)) picks_3

pick_then_migrate_example : Stolen 1 2 3 picked
pick_then_migrate_example =
    pick_then_migrate 1 2 3 demo picked demo-IsValid (omega arith) refl refl (omega arith)
      (omega arith) pick_next_ready-picked (omega arith)

abbrev soc : Soc
soc = record {
  dma = dma;
  gic = [];
  tval = λ _. 0;
  tick_freq = 62500000;
  dma_irq_count = λ _. 0;
  lb_tick_count = 199;
}

demo-IsCalm : IsCalm demo
demo-IsCalm = record {
  valid = demo-IsValid;
  free = λ q. ground arith;
  quiet = refl;
  online = (omega arith, omega arith);
}

irq_handler_example :
    (out : IrqEnd × Soc) × (irq_handler true 1 30 0 two_ready soc ≡ some out)
    × (out.1.gic ≡ soc.gic ++ signalled (this_cpu 1 demo).cpu_id 30)
    × Ends 1 30 soc out
unfolding sem_init
irq_handler_example =
    irq_handler_lem true 1 30 0 two_ready soc demo-IsCalm (omega arith) refl
      (record { sems = λ s. refl; queues = λ q. ground arith })

-- The cores of the fixtures, with numbers in range everywhere
abbrev quiet_soc : Soc
quiet_soc = set_kernel (record demo { cpu_locals = λ c. local (c % 4) }) soc

quiet_soc-IsQuiet : IsQuiet quiet_soc
unfolding sem_init
quiet_soc-IsQuiet = record {
  calm = record {
    valid = demo-IsValid;
    free = demo-IsCalm.free;
    quiet = refl;
    online = (omega arith, omega arith);
  };
  accel = refl;
  sems = λ q. refl;
  cpus = λ c. omega arith;
}

-- A tick on core 1, the accelerator's interrupt on core 0, a spurious one on core 2
abbrev interrupts : List Interrupt
interrupts =
    record { core = 1; id = 30; status = 0; dev = two_ready }
    ∷ record { core = 0; id = 37; status = 1; dev = two_ready }
    ∷ record { core = 2; id = 1023; status = 0; dev = two_ready }
    ∷ []

handle_all_example : (s' : Soc) × (handle_all true interrupts quiet_soc ≡ some s') × IsQuiet s'
handle_all_example = handle_all_lem true interrupts quiet_soc quiet_soc-IsQuiet
