-- ===== src/Accel.antt =====
-- kernel/accel.c: the driver's side of the accelerator's submission and completion rings. The device
-- is not in the repository: what it shows at each look, its completion tail and the completion ring,
-- is a parameter.

pub mod Submit
pub mod Drain
pub mod Polled
use aarch64_rtos.Prelude.{
  ℕ, zero, suc, ◌+◌, ◌/◌, ◌%◌, ◌^◌, Bool, List, [], ◌∷◌, ◌==◌, if◌then◌else◌, update,
}
use aarch64_rtos.Kernel.{Kernel}
use aarch64_rtos.Lock.{irq_disable_save, irq_restore}

abbrev pub dma_accel_queue_depth : ℕ
dma_accel_queue_depth = 16

abbrev pub opcode_copy : ℕ
opcode_copy = 0

-- `dma_accel_cmd_t`
pub record Cmd : Type 0 where
  pub opcode : ℕ
  pub len : ℕ
  pub src_addr : ℕ
  pub dst_addr : ℕ
  pub cmd_id : ℕ
  pub src2_addr : ℕ
  pub scalar_bits : ℕ
  pub reserved : ℕ

-- `dma_accel_completion_t`
pub record Completion : Type 0 where
  pub cmd_id : ℕ
  pub status : ℕ
  pub reserved : ℕ

-- The driver's globals; `regs` holds what it wrote last to each register of BAR0, by offset.
pub record Accel : Type 0 where
  pub regs : ℕ → ℕ
  pub sq_ring : ℕ → Cmd
  pub sq_tail_local : ℕ
  pub cq_head_local : ℕ
  pub last_completion : Completion

-- What the device shows: `REG_CQ_TAIL` and the ring it writes to.
pub record Device : Type 0 where
  pub cq_tail : ℕ
  pub cq_ring : ℕ → Completion

unfoldable pub reg_write : ℕ → ℕ → Accel → Accel
reg_write off val a = record a { regs = update a.regs off val }

abbrev pub reg_sq_tail : ℕ
reg_sq_tail = 0x4C

abbrev pub reg_cq_head : ℕ
reg_cq_head = 0x5C

-- The command in the slot after the last one, and the doorbell; `len` is an `unsigned int`.
unfoldable pub push_copy : ℕ → ℕ → ℕ → Accel → ℕ × Accel
push_copy src dst len a =
    let id = (a.sq_tail_local + 1) % 2 ^ 32 in
    let cmd : Cmd = record {
      opcode = opcode_copy;
      len = len % 2 ^ 32;
      src_addr = src;
      dst_addr = dst;
      cmd_id = id;
      src2_addr = 0;
      scalar_bits = 0;
      reserved = 0;
    } in
    let tail = (a.sq_tail_local + 1) % 2 ^ 32 in
    (
      id,
      reg_write reg_sq_tail tail (record a {
        sq_ring = update a.sq_ring (a.sq_tail_local % dma_accel_queue_depth) cmd;
        sq_tail_local = tail;
      }),
    )

unfoldable pub accel_submit_copy : ℕ → ℕ → ℕ → ℕ → Accel → Kernel → ℕ × Accel × Kernel
accel_submit_copy me src dst len a k =
    let (flags, k1) = irq_disable_save me k in
    let (id, a1) = push_copy src dst len a in (id, a1, irq_restore me flags k1)

-- `cq_head_local++; reg_write(REG_CQ_HEAD, cq_head_local);`
unfoldable pub advance : Accel → Accel
advance a =
    let head = (a.cq_head_local + 1) % 2 ^ 32 in
    reg_write reg_cq_head head (record a { cq_head_local = head })

-- `out` as the list of its first `drained` entries; `left` is `max_out - drained`, and `dev i` is what
-- the device shows at round `i`.
unfoldable pub accel_drain_completions_multi :
    (ℕ → Device) → ℕ → ℕ → Accel → List Completion × Accel
accel_drain_completions_multi dev i zero a = ([], a)
accel_drain_completions_multi dev i (suc left) a =
    let rest = accel_drain_completions_multi dev (i + 1) left (advance a) in
    if (dev i).cq_tail == a.cq_head_local
    then ([], a)
    else ((dev i).cq_ring (a.cq_head_local % dma_accel_queue_depth) ∷ rest.0, rest.1)
