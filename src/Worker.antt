-- ===== src/Worker.antt =====
-- `worker_entry` of kernel/main.c, without DISABLE_REAL_DMA: a worker fills its buffer, has the
-- accelerator copy it, waits, and compares. It stands in four parts: up to the call of `sem_wait`, that
-- call, what the worker does behind it, and a round of the loop that waits for the other workers.
pub mod Check
pub mod Start
pub mod Wait
use Prim.Native.Nat.{bit_xor}
use aarch64_rtos.Prelude.{
  ℕ, zero, suc, ◌+◌, ◌*◌, ◌%◌, ◌^◌, ◌>>=◌, ◌&&◌, not, Bool, true, false, Option, some, List, [],
  ◌∷◌, ◌++◌, ◌==◌, if◌then◌else◌, update, codes,
}
use aarch64_rtos.Kernel.{Kernel}
use aarch64_rtos.Uart.{uart_puts, klog}
use aarch64_rtos.Sched.Run.{this_cpu, current}
use aarch64_rtos.Sched.Yield.{yield}
use aarch64_rtos.Sync.Block.{Progress}
use aarch64_rtos.Sync.Sem.{sem_init, sem_wait}
use aarch64_rtos.Accel.{Completion, Device}
use aarch64_rtos.Dma.{Dma, num_workers, dispatch_available_completions}
use aarch64_rtos.Dma.Worker.{test_len, submit_request, read_result}
use aarch64_rtos.Boot.{Image}
use aarch64_rtos.Debug.{hexline, decline, minus_one, worker_id_of}

-- The workers' data; the accelerator writes to `dst_buf` while they wait.
pub record Workers : Type 0 where
  pub dma : Dma
  pub src_buf : ℕ → ℕ → ℕ
  pub dst_buf : ℕ → ℕ → ℕ
  pub loops_seen : ℕ → ℕ

-- Where the linker put the buffers.
pub record Buffers : Type 0 where
  pub src : ℕ → ℕ
  pub dst : ℕ → ℕ

abbrev pub set_kernel : Kernel → Workers → Workers
set_kernel k w = record w { dma = record w.dma { kernel = k } }

-- A step of the kernel that only prints
abbrev pub prints : (Kernel → Option Kernel) → Workers → Option Workers
prints f w = f w.dma.kernel >>= λ k. some (set_kernel k w)

-- `(char)((i + id * 17) ^ 0xA5)`
abbrev pub pattern : ℕ → ℕ → ℕ
pattern id i = bit_xor (i + id * 17) 0xA5 % 256

-- `src_buf[id][i] = …; dst_buf[id][i] = 0;`, with `rounds` rounds left
unfoldable pub fill : ℕ → ℕ → ℕ → Workers → Workers
fill id zero i w = w
fill id (suc rounds) i w = fill id rounds (i + 1) (record w {
  src_buf = update w.src_buf id (update (w.src_buf id) i (pattern id i));
  dst_buf = update w.dst_buf id (update (w.dst_buf id) i 0);
})

-- `where[n]`
abbrev pub runs_on : ℕ → List ℕ
runs_on n = codes " runs on CPU" ++ (b'0' + n) ∷ 13 ∷ 10 ∷ []

-- Where a worker stands: in the loop behind its report, or before its `sem_wait` with its number and its
-- command's.
pub data WorkerEnd : Type 0 where
  fatal : WorkerEnd
  submitted : (id cmd_id : ℕ) → WorkerEnd

unfoldable pub report_unknown : ℕ → Workers → Option (WorkerEnd × Workers)
report_unknown me w = do
  w1 ←
      prints (uart_puts me (codes "FATAL: worker_id_of(current) returned -1 in worker_entry!\r\n"))
        w
  w2 ← prints (hexline me (codes "  current ptr=") (current me w.dma.kernel)) w1
  some (fatal, w2)

-- What follows the filling of the buffers, up to the call of `sem_wait`.
unfoldable pub ask : Buffers → ℕ → ℕ → Workers → Option (WorkerEnd × Workers)
ask at me id w = do
  let w1 = record w { dma = record w.dma { sems = update w.dma.sems id (sem_init 0) } }
  let cpu = (this_cpu me w1.dma.kernel).cpu_id
  w2 ← prints (klog me (codes "D2b: worker ") id true (runs_on (cpu % 4))) w1
  (cmd_id, d) ← submit_request me (at.src id) (at.dst id) id w2.dma
  w3 ← prints (decline me (codes "P4 M7: worker submitted cmd_id=") cmd_id) (record w2 { dma = d })
  some (submitted id cmd_id, w3)

unfoldable pub request_copy : Buffers → ℕ → ℕ → Workers → Option (WorkerEnd × Workers)
request_copy at me id w = ask at me id (fill id test_len 0 w)

unfoldable pub worker_start : Image → Buffers → ℕ → Workers → Option (WorkerEnd × Workers)
worker_start img at me w =
    let id = worker_id_of img (current me w.dma.kernel) in
    let unknown = report_unknown me w in
    let known = request_copy at me id w in if id == minus_one then unknown else known

-- `sem_wait(&worker_sem[id])`, in whatever state the machine is by then: the completion may have been
-- dispatched before.
unfoldable pub worker_wait : ℕ → ℕ → Workers → Option (Progress × Workers)
worker_wait me id w = do
  (p, s, k) ← sem_wait me (w.dma.sems id) w.dma.kernel
  some (p, record w { dma = record w.dma { sems = update w.dma.sems id s; kernel = k } })

-- The loop for `data_ok`, with `rounds` rounds left
unfoldable pub same_data : (ℕ → ℕ) → (ℕ → ℕ) → ℕ → ℕ → Bool
same_data dst src zero i = true
same_data dst src (suc rounds) i =
    let rest = same_data dst src rounds (i + 1) in if dst i == src i then rest else false

abbrev pub is_wrong : ℕ → Completion → Bool
is_wrong cmd_id c = not (c.cmd_id == cmd_id && c.status == 0)

abbrev pub wrong_text : List ℕ
wrong_text = codes "P4 M7: !!! worker got wrong/bad completion !!!\r\n"

abbrev pub verdict_text : Bool → List ℕ
verdict_text ok =
    if ok
    then codes "P4 M7: worker DATA OK, cmd_id="
    else codes "P4 M7: worker DATA MISMATCH, cmd_id="

-- `pending[slot]` with `slot` -1 is outside the table, and `none` here.
unfoldable pub worker_check : ℕ → ℕ → ℕ → Workers → Option Workers
worker_check me id cmd_id w = do
  comp ← read_result w.dma.pending cmd_id
  w1 ← if is_wrong cmd_id comp then prints (uart_puts me wrong_text) w else some w
  let ok = same_data (w1.dst_buf id) (w1.src_buf id) test_len 0
  w2 ← prints (decline me (verdict_text ok) cmd_id) w1
  let w3 = record w2 { loops_seen = update w2.loops_seen id 1 }
  let k = w3.dma.kernel
  prints (decline me (codes "WORKER ewma=") (k.tcbs (current me k)).ewma_load) w3

-- The loop for `all_done`, with `rounds` rounds left
unfoldable pub all_seen : (ℕ → ℕ) → ℕ → ℕ → Bool
all_seen seen zero i = true
all_seen seen (suc rounds) i =
    let rest = all_seen seen rounds (i + 1) in if seen i == 0 then false else rest

-- A round of the last loop: it is over, or the worker has polled and yielded.
pub data Round : Type 0 where
  over : Round
  polled : Progress → Round

unfoldable pub poll_and_yield : ℕ → (ℕ → Device) → Workers → Option (Round × Workers)
poll_and_yield me dev w = do
  d ← dispatch_available_completions me dev w.dma
  (p, k) ← yield me d.kernel
  some (polled p, record w { dma = record d { kernel = k } })

unfoldable pub worker_round : ℕ → (ℕ → Device) → Workers → Option (Round × Workers)
worker_round me dev w =
    let again = poll_and_yield me dev w in
    if all_seen w.loops_seen num_workers 0 then some (over, w) else again
