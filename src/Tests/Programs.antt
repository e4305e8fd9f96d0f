-- ===== src/Tests/Programs.antt =====
-- The theorems on `kernel_main`, the ping and pong tasks and the workers, at concrete states.
use aarch64_rtos.Prelude.{
  ℕ, ◌+◌, ◌*◌, ◌≤◌, ◌<◌, ◌≡◌, ◌⊎◌, refl, arith, some, true, List, ◌++◌, ◌==◌, codes, update,
  if◌then◌else◌,
}
use aarch64_rtos.Pci.{pci_vendor_id, ecam_addr}
use aarch64_rtos.Pci.Ecam.{ecam_round_trip}
use aarch64_rtos.Pci.Find.{IsAccel}
use aarch64_rtos.Sync.Sem.{sem_init}
use aarch64_rtos.Sync.Sem.Laws.{posted, woken, sem_post_lem}
use aarch64_rtos.Boot.{Image, psci_cpu_on}
use aarch64_rtos.Boot.Main.{Board, Layout, kernel_main}
use aarch64_rtos.Boot.Main.Laws.{MainRun, HasBars, kernel_main_lem}
use aarch64_rtos.PingPong.{
  PingPong, at_start, pp_rounds, stops, waits, Reached, start, step, ping_posts,
}
use aarch64_rtos.PingPong.Laws.{CanMove, ping_pong_lem}
use aarch64_rtos.Worker.{Workers, Buffers, pattern, worker_start, worker_check}
use aarch64_rtos.Worker.Check.{Complaint, Says, line, worker_check_lem}
use aarch64_rtos.Dma.Worker.{find_slot_of, read_result}
use aarch64_rtos.Uart.Decimal.{value_from}
use aarch64_rtos.Sched.Run.{current}
use aarch64_rtos.Worker.Start.{CanAsk, Started, worker_start_lem}
use aarch64_rtos.Tests.Fixtures.{demo}
use aarch64_rtos.Tests.Devices.{dma, free_slot}
use aarch64_rtos.Tests.Hardware.{bus, bus-HasBar, reset, junk}
use aarch64_rtos.Tests.Boot.{image, firmware, seen, power_on, off-IsListed}

abbrev layout : Layout
layout = record {
  image = image;
  vectors = 0x40000800;
  sq_ring = 0x40200000;
  cq_ring = 0x40200400;
  entry = 0x40000000;
}

abbrev board : Board bus
board = record { smp = power_on; bus = reset; g_bar0 = 0 }

-- The accelerator is in slot 2 and in no other.
slot_2 : (dev : ℕ) → dev < 32 → IsAccel bus reset dev → dev ≡ 2
slot_2 dev lt (v, d) =
    let here : (ecam_addr 0 dev 0 pci_vendor_id == ecam_addr 0 2 0 pci_vendor_id) ≡ true =
      ground (arith, v) in
    let (_, a, _, _) =
      ecam_round_trip 0 dev 0 pci_vendor_id (omega arith) lt (omega arith) (omega arith) in
    let (_, b, _, _) =
      ecam_round_trip 0 2 0 pci_vendor_id (omega arith) (omega arith) (omega arith) (omega arith) in
    ground (arith, here, a, b)

bus-HasBars : HasBars bus reset
bus-HasBars dev lt a = rw (slot_2 dev lt a) (20, omega arith, omega arith, bus-HasBar)

kernel_main_example :
    MainRun bus layout 3 board
      (kernel_main bus (λ _. 7) junk layout firmware seen seen.mpidr 62500000 3 board)
unfolding psci_cpu_on
kernel_main_example =
    kernel_main_lem bus (λ _. 7) junk layout firmware seen seen.mpidr 62500000 3
      (λ a b e. omega (arith, e)) (λ c. omega arith) (λ c n h. ground (arith, h)) (omega arith)
      (omega arith) (omega arith) (λ c lo hi. ground arith) (omega arith) (omega arith) 1 board
      bus-HasBars (off-IsListed 0)

-- After the first post
abbrev called_once : PingPong
called_once = record at_start {
  ping = waits 0;
  to_pong = record { count = 1; waiter = 0; lock = 0 };
}

first_step : Reached 1 5 called_once
unfolding posted woken sem_init
first_step =
    step start
      (ping_posts 0 demo demo refl (sem_post_lem 0 (sem_init 0) demo refl (λ n. absurd (n refl))))

ping_pong_example :
    (called_once.rounds_done ≤ called_once.pongs)
    × (called_once.pongs ≤ called_once.rounds_done + 1)
    × (((called_once.ping ≡ stops)
          × (called_once.rounds_done ≡ pp_rounds)
          × (called_once.pongs ≡ pp_rounds))
        ⊎ CanMove 1 5 called_once)
ping_pong_example = ping_pong_lem 1 5 called_once (omega arith) (omega arith) first_step

-- Task 2 of the fixtures, which runs on core 1, is the second worker.
abbrev placed : Image
placed = record image { address = λ t. if t == 15 then 2 else 0x40100000 + 8192 * t }

abbrev buffers : Buffers
buffers = record { src = λ i. 0x40210000 + 128 * i; dst = λ i. 0x40220000 + 128 * i }

abbrev workers : Workers
workers = record {
  dma = record dma { pending = λ _. free_slot };
  src_buf = λ _ _. 0;
  dst_buf = λ _ _. 9;
  loops_seen = λ _. 0;
}

workers-CanAsk : CanAsk workers.dma
workers-CanAsk = record { quiet = refl; free = refl }

worker_start_example : Started placed buffers 1 workers (worker_start placed buffers 1 workers)
worker_start_example = worker_start_lem placed buffers 1 workers workers-CanAsk (omega arith)

-- The bytes have not arrived.
abbrev idle_copy : Workers
idle_copy = record workers {
  dma = record workers.dma { pending = λ i. record free_slot { used = 1; cmd_id = i + 1 } };
  src_buf = pattern;
}

worker_check_example :
    let k = idle_copy.dma.kernel in
    (complaint verdict number load : List ℕ) × Complaint 1 free_slot.result complaint
    × Says (idle_copy.dst_buf 0) (idle_copy.src_buf 0) verdict
    × (value_from 0 number ≡ 1)
    × (value_from 0 load ≡ (k.tcbs (current 1 k)).ewma_load)
    × (worker_check 1 0 1 idle_copy
        ≡ some (record idle_copy {
          loops_seen = update idle_copy.loops_seen 0 1;
          dma = record idle_copy.dma {
            kernel = record k {
              uart_out =
                  ((k.uart_out ++ complaint) ++ line verdict number)
                  ++ line (codes "WORKER ewma=") load;
            };
          };
        }))
unfolding read_result find_slot_of
worker_check_example =
    worker_check_lem 1 0 1 free_slot.result idle_copy refl refl (omega arith) (omega arith)
