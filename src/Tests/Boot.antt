-- ===== src/Tests/Boot.antt =====
-- Bring-up with three cores, the fourth of which never sets its flag.
use aarch64_rtos.Prelude.{
  ℕ, ◌+◌, ◌*◌, ◌%◌, ◌^◌, ◌≤◌, ◌≡◌, refl, arith, some, List, [], ◌==◌, ◌&&◌, ltb, leb,
}
use aarch64_rtos.Kernel.{Kernel, max_cpus}
use aarch64_rtos.Irq.{kernel}
use aarch64_rtos.Boot.{
  Image, Firmware, Seen, Smp, spin_limit, psci_cpu_on, smp_boot_secondaries, boot,
}
use aarch64_rtos.Boot.Start.{count, smp_boot_secondaries_lem}
use aarch64_rtos.Boot.Listed.{IsListed, has_on, count_on}
use aarch64_rtos.Boot.Tasks.{IsUp, boot_lem}
use aarch64_rtos.Tests.Fixtures.{demo, tcb, queue}
use aarch64_rtos.Tests.Devices.{dma}

abbrev pub image : Image
image = record {
  address = λ t. 0x40100000 + 8192 * t;
  entry = λ t. 0x40080000 + 256 * t;
  trampoline = 0x4007F000;
}

abbrev pub firmware : Firmware
firmware id a b c = 0

-- Cores 1 and 2 set their flag by the sixth look.
abbrev pub seen : Seen
seen = record { alive = λ c n. ltb c 3 && leb 5 n; mpidr = λ c. 2 ^ 31 + c; id = λ c. c % 4 }

abbrev pub off : Kernel
off = record demo { tcbs = λ _. tcb 0 0 0 0; runqueues = λ _. queue (λ _. 0) 0; smp_online = 1 }

abbrev pub power_on : Smp
power_on = record {
  soc = record {
    dma = record dma { kernel = off };
    gic = [];
    tval = λ _. 0;
    tick_freq = 0;
    dma_irq_count = λ _. 0;
    lb_tick_count = 0;
  };
  vbar = λ _. 0;
  boot_vbar = 0;
  cpu_alive = λ _. 0;
  cpu_mpidr = λ _. 0;
  cpu_seen_id = λ _. 0;
}

smp_boot_secondaries_example :
    let came_up = λ (c : ℕ). psci_cpu_on firmware c 0x40000000 == 0 && seen.alive c spin_limit in
    let online = count (came_up 3) (count (came_up 2) (count (came_up 1) 1)) in
    (1 ≤ online)
    × (online ≤ max_cpus)
    × ((s' : Smp) × (out : List ℕ) × (smp_boot_secondaries firmware 0x40000000 seen
            (2 ^ 31)
            power_on
          ≡ some s')
        × (kernel s'.soc ≡ record (kernel power_on.soc) { smp_online = online; uart_out = out })
        × (s'.soc.dma.accel ≡ power_on.soc.dma.accel))
smp_boot_secondaries_example =
    smp_boot_secondaries_lem firmware 0x40000000 (2 ^ 31) seen power_on (λ c. omega arith)
      (λ c n h. ground (arith, h)) refl

pub off-IsListed : (up : ℕ) → IsListed image up 1 [] off
unfolding has_on count_on
off-IsListed up = record {
  valid = λ c lt. record {
    few = omega arith;
    indexed = omega arith;
    home = λ i h. absurd (omega arith);
    distinct = λ i j a b e. absurd (omega arith);
  };
  free = λ q. refl;
  quiet = refl;
  counts = λ c. refl;
  listed = λ c i h. absurd (omega arith);
  holds = λ c t h. ground arith;
  ids = λ c lt. refl;
  online = refl;
}

boot_example :
    (s' : Smp) × (boot (λ _. 7) image firmware 0x40000000 seen seen.mpidr 62500000 3 power_on
      ≡ some s')
    × IsUp image 3 (kernel s'.soc)
    × (s'.soc.dma.accel ≡ power_on.soc.dma.accel)
unfolding psci_cpu_on
boot_example =
    boot_lem (λ _. 7) image firmware 0x40000000 seen seen.mpidr 62500000 3 1 power_on
      (λ a b e. omega (arith, e)) (λ c. omega arith) (λ c n h. ground (arith, h)) (omega arith)
      (omega arith) (omega arith) (λ c lo hi. ground arith) (off-IsListed 1)
